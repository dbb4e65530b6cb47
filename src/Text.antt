-- ===== src/Text.antt =====
-- What `sprintf` writes for the formats of mainTask.c: the characters of a text and of an `int`.
pub mod Decimal
use Prim.Native.String.{String}
use Prim.Native.Char.{code}
use rtos_hm_board.Prelude.{
  ℕ, zero, suc, ◌+◌, ◌-◌, ◌*◌, ◌/◌, ◌%◌, ◌^◌, ltb, if◌then◌else◌, List, [], ◌∷◌, ◌++◌,
}

abbrev pub codes : String → List ℕ
codes String.[] = []
codes (String.◌∷◌ c s) = code c ∷ codes s

-- The decimal digits of a number below 10 ^ fuel, without leading zeros.
unfoldable pub decimal : ℕ → ℕ → List ℕ
decimal zero n = []
decimal (suc fuel) n =
    let front = decimal fuel (n / 10) in
    if ltb n 10 then (48 + n) ∷ [] else front ++ ((48 + n % 10) ∷ [])

-- `%i` and `%d` of an `int`, given by its pattern of 16 bits. Five digits are enough.
unfoldable pub print_int : ℕ → List ℕ
print_int w = if ltb w (2 ^ 15) then decimal 5 w else b'-' ∷ decimal 5 (2 ^ 16 - w)

-- `/` and `%` of an `int` by a positive `int` round to zero.
abbrev pub divide16 : ℕ → ℕ → ℕ
divide16 w n = if ltb w (2 ^ 15) then w / n else (2 ^ 16 - (2 ^ 16 - w) / n) % 2 ^ 16

abbrev pub remainder16 : ℕ → ℕ → ℕ
remainder16 w n = if ltb w (2 ^ 15) then w % n else (2 ^ 16 - (2 ^ 16 - w) % n) % 2 ^ 16
