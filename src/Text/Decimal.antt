-- ===== src/Text/Decimal.antt =====
-- How long the printed numbers of mainTask.c are.
use rtos_hm_board.Prelude.{
  ℕ, zero, suc, ◌+◌, ◌-◌, ◌/◌, ◌%◌, ◌^◌, ◌≤◌, ◌<◌, ◌≡◌, arith, ltb, [], ◌∷◌, length, length-append,
  Bool-cases, ◌⊎◌, inl, inr, true, false,
}
use rtos_hm_board.Text.{decimal, print_int}

length-decimal : (fuel n : ℕ) → length (decimal fuel n) ≤ fuel
unfolding decimal
length-decimal zero n = omega arith
length-decimal (suc fuel) n = ground (
  arith,
  length-append (decimal fuel (n / 10)) ((48 + n % 10) ∷ []),
  length-decimal fuel (n / 10),
)

length-decimal_small : (fuel n : ℕ) → n < 100 → length (decimal (suc (suc fuel)) n) ≤ 2
unfolding decimal
length-decimal_small fuel n h = elim (Bool-cases (ltb n 10)) [
  | inl small ↦ rw small (omega arith)
  | inr large ↦ let front : ltb (n / 10) 10 ≡ true = ground arith in rw (large, front) (omega arith)
]

pub length-print_int : (w : ℕ) → length (print_int w) ≤ 6
unfolding print_int
length-print_int w = elim (Bool-cases (ltb w (2 ^ 15))) [
  | inl small ↦ rw small (omega (arith, length-decimal 5 w))
  | inr large ↦ rw large (omega (arith, length-decimal 5 (2 ^ 16 - w)))
]

-- An `int` between -99 and 99 takes a sign and two digits.
pub length-print_int_small :
    (w : ℕ) → (w < 100) ⊎ ((2 ^ 16 - 100 < w) × (w < 2 ^ 16)) → length (print_int w) ≤ 3
unfolding print_int
length-print_int_small w (inl h) =
    let below : ltb w (2 ^ 15) ≡ true = ground arith in
    rw below (omega (arith, length-decimal_small 3 w h))
length-print_int_small w (inr h) =
    let below : ltb w (2 ^ 15) ≡ false = ground arith in
    rw below (omega (arith, length-decimal_small 3 (2 ^ 16 - w) (omega arith)))
