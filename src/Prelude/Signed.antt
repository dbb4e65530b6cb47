-- ===== src/Prelude/Signed.antt =====
-- Signed integers over the native numbers, and the `int` (16 bits) and `long` (32 bits) of the
-- AVR compiler as bit patterns with the integers that they stand for.
use rtos_hm_board.Prelude.{
  ℕ, suc, ◌+◌, ◌-◌, ◌*◌, ◌/◌, ◌%◌, ◌^◌, ◌≤◌, ◌<◌, ◌≡◌, refl, arith, ltb, leb, if◌then◌else◌,
}

-- `negsuc n` is -(n + 1).
pub data ℤ : Type 0 where
  pos : ℕ → ℤ
  negsuc : ℕ → ℤ

abbrev pub pos_part : ℤ → ℕ
pos_part (pos n) = n
pos_part (negsuc n) = 0

abbrev pub neg_part : ℤ → ℕ
neg_part (pos n) = 0
neg_part (negsuc n) = suc n

-- a - b, as an integer.
abbrev pub sub_ℕ : ℕ → ℕ → ℤ
sub_ℕ a b = if leb b a then pos (a - b) else negsuc (b - a - 1)

infixl 65 ◌+ℤ◌ ◌-ℤ◌
infixl 70 ◌*ℤ◌
infix 50 ◌≤ℤ◌
unfoldable pub ◌+ℤ◌ : ℤ → ℤ → ℤ
a +ℤ b = sub_ℕ (pos_part a + pos_part b) (neg_part a + neg_part b)

unfoldable pub ◌-ℤ◌ : ℤ → ℤ → ℤ
a -ℤ b = sub_ℕ (pos_part a + neg_part b) (neg_part a + pos_part b)

unfoldable pub ◌*ℤ◌ : ℤ → ℤ → ℤ
a *ℤ b =
    sub_ℕ (pos_part a * pos_part b + neg_part a * neg_part b)
      (pos_part a * neg_part b + neg_part a * pos_part b)

abbrev pub ◌≤ℤ◌ : ℤ → ℤ → Type 0
a ≤ℤ b = pos_part a + neg_part b ≤ pos_part b + neg_part a

-- One lemma for each operation lets `omega` work with the operations shut, at any depth.
pub +ℤ_parts :
    (a b : ℤ)
    → pos_part (a +ℤ b) + neg_part a + neg_part b ≡ neg_part (a +ℤ b) + pos_part a + pos_part b
unfolding ◌+ℤ◌
+ℤ_parts a b = ground arith

pub -ℤ_parts :
    (a b : ℤ)
    → pos_part (a -ℤ b) + neg_part a + pos_part b ≡ neg_part (a -ℤ b) + pos_part a + neg_part b
unfolding ◌-ℤ◌
-ℤ_parts a b = ground arith

pub eq_of_parts : (a b : ℤ) → pos_part a + neg_part b ≡ pos_part b + neg_part a → a ≡ b
eq_of_parts a b h = ground arith

pub ruleset int_laws = (arith, +ℤ_parts, -ℤ_parts, eq_of_parts)

-- The integer of a pattern.
abbrev pub int16 : ℕ → ℤ
int16 w = if ltb w (2 ^ 15) then pos w else negsuc (2 ^ 16 - w - 1)

abbrev pub int32 : ℕ → ℤ
int32 w = if ltb w (2 ^ 31) then pos w else negsuc (2 ^ 32 - w - 1)

-- The conversion of an `int` to a `long`: the sign is repeated.
abbrev pub widen : ℕ → ℕ
widen w = if ltb w (2 ^ 15) then w else w + (2 ^ 32 - 2 ^ 16)

-- `x >> k` of an `int`: the sign is repeated here too.
abbrev pub shift_right16 : ℕ → ℕ → ℕ
shift_right16 w k = if ltb w (2 ^ 15) then w / 2 ^ k else w / 2 ^ k + (2 ^ 16 - 2 ^ 16 / 2 ^ k)

-- Division of a `long` by a positive number rounds to zero.
abbrev pub divide32 : ℕ → ℕ → ℕ
divide32 w n = if ltb w (2 ^ 31) then w / n else (2 ^ 32 - (2 ^ 32 - w) / n) % 2 ^ 32

-- The same on integers.
abbrev pub quotient : ℤ → ℕ → ℤ
quotient (pos a) n = pos (a / n)
quotient (negsuc a) n = sub_ℕ 0 (suc a / n)

pub int32-widen : (w : ℕ) → w < 2 ^ 16 → int32 (widen w) ≡ int16 w
int32-widen w h = ground arith

-- Where the true sum fits, the wrapping sum stands for it.
pub int32-add :
    (a b : ℕ)
    → a < 2 ^ 32
    → b < 2 ^ 32
    → negsuc (2 ^ 31 - 1) ≤ℤ int32 a +ℤ int32 b
    → int32 a +ℤ int32 b ≤ℤ pos (2 ^ 31 - 1)
    → int32 ((a + b) % 2 ^ 32) ≡ int32 a +ℤ int32 b
unfolding ◌+ℤ◌
int32-add a b ha hb lo hi = ground arith
