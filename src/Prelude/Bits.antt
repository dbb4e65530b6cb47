-- ===== src/Prelude/Bits.antt =====
-- `&` and `|` of C on values that are not negative, at variables: the library's operations
-- restated digit by digit, then a mask as a remainder and disjoint fields as a sum.
use Prim.Native.Nat.{max, digits, bitwise, bit_and-bitwise, bit_or-bitwise}
use native.Mathlib.Nat.{pow-suc, pow-zero, mul-one, div-one, div-div-eq-div-mul}
use mathlib.Core.Path.{◌≡⟨◌⟩◌, ◌∎, ◌∙◌}
use rtos_hm_board.Prelude.{
  ℕ, zero, suc, ◌+◌, ◌*◌, ◌/◌, ◌%◌, ◌^◌, ◌≤◌, ◌<◌, bit_and, bit_or, min, ◌≡◌, refl, ap, arith,
}

module _ (z : ℕ → ℕ) (f : ℕ → ℕ → ℕ) where
  -- More fuel than the number has digits makes no difference.
  enough_digits : (n m a b : ℕ) → a ≤ n → a ≤ m → digits z f n a b ≡ digits z f m a b
  enough_digits zero zero a b small fits = refl
  enough_digits zero (suc m) zero b small fits = refl
  enough_digits zero (suc m) (suc a) b small fits = absurd (omega arith)
  enough_digits (suc n) zero zero b small fits = refl
  enough_digits (suc n) zero (suc a) b small fits = absurd (omega arith)
  enough_digits (suc n) (suc m) zero b small fits = refl
  enough_digits (suc n) (suc m) (suc a) b small fits =
      omega (arith, enough_digits n m (suc a / 2) (b / 2) (omega arith) (omega arith))

  low_digit :
      (a b : ℕ)
      → bitwise z f (suc a) b ≡ bitwise z f (suc a / 2) (b / 2) * 2 + f (suc a % 2) (b % 2)
  low_digit a b =
      omega (arith, enough_digits a (suc a / 2) (suc a / 2) (b / 2) (omega arith) (omega arith))

pub bit_and_digit : (a b : ℕ) → bit_and a b ≡ bit_and (a / 2) (b / 2) * 2 + min (a % 2) (b % 2)
bit_and_digit zero b = simp bit_and-bitwise (omega arith)
bit_and_digit (suc a) b = simp bit_and-bitwise (low_digit (λ y. 0) min a b)

pub bit_or_digit : (a b : ℕ) → bit_or a b ≡ bit_or (a / 2) (b / 2) * 2 + max (a % 2) (b % 2)
bit_or_digit zero b = simp bit_or-bitwise (omega arith)
bit_or_digit (suc a) b = simp bit_or-bitwise (low_digit (λ y. y) max a b)

none_left : (n a : ℕ) → a ≤ n → (bit_and a 0 ≡ 0)
none_left n zero h = refl
none_left zero (suc a) h = absurd (omega arith)
none_left (suc n) (suc a) h =
    omega (arith, bit_and_digit (suc a) 0, none_left n (suc a / 2) (omega arith))

pub bit_and-zero : (a : ℕ) → bit_and a 0 ≡ 0
bit_and-zero a = none_left a a (omega arith)

pub zero-bit_or : (a : ℕ) → bit_or 0 a ≡ a
zero-bit_or a = simp bit_or-bitwise refl

all_left : (n a : ℕ) → a ≤ n → (bit_or a 0 ≡ a)
all_left n zero h = refl
all_left zero (suc a) h = absurd (omega arith)
all_left (suc n) (suc a) h =
    omega (arith, bit_or_digit (suc a) 0, all_left n (suc a / 2) (omega arith))

pub bit_or-zero : (a : ℕ) → bit_or a 0 ≡ a
bit_or-zero a = all_left a a (omega arith)

-- One digit of a mask that ends in 0, and of one that ends in 1.
pub bit_and-even : (a m : ℕ) → bit_and a (2 * m) ≡ 2 * bit_and (a / 2) m
bit_and-even a m = omega (arith, bit_and_digit a (2 * m), ap (bit_and (a / 2)) halved)
  where
    halved : 2 * m / 2 ≡ m
    halved = omega arith

pub bit_and-odd : (a m : ℕ) → bit_and a (2 * m + 1) ≡ 2 * bit_and (a / 2) m + a % 2
bit_and-odd a m = omega (arith, bit_and_digit a (2 * m + 1), ap (bit_and (a / 2)) halved)
  where
    halved : (2 * m + 1) / 2 ≡ m
    halved = omega arith

-- `a & 0x7f` and `a & 0xff`, a digit at a time.
pub bit_and_seven_ones : (b : ℕ) → bit_and b 127 ≡ b % 128
bit_and_seven_ones b = omega (arith, bit_and-odd b 63, ones_six (b / 2))
  where
    ones_two : (b : ℕ) → bit_and b 3 ≡ b % 4
    ones_two b = omega (arith, bit_and-odd b 1, bit_and-odd (b / 2) 0, bit_and-zero (b / 2 / 2))

    ones_four : (b : ℕ) → bit_and b 15 ≡ b % 16
    ones_four b = omega (arith, bit_and-odd b 7, bit_and-odd (b / 2) 3, ones_two (b / 2 / 2))

    ones_six : (b : ℕ) → bit_and b 63 ≡ b % 64
    ones_six b = omega (arith, bit_and-odd b 31, bit_and-odd (b / 2) 15, ones_four (b / 2 / 2))

pub bit_and_byte : (a : ℕ) → bit_and a 255 ≡ a % 256
bit_and_byte a = omega (arith, bit_and-odd a 127, bit_and_seven_ones (a / 2))

-- A mask that is moved up by `k` digits takes the field at digit `k`.
pub bit_and-field : (k a m : ℕ) → bit_and a (m * 2 ^ k) ≡ bit_and (a / 2 ^ k) m * 2 ^ k
bit_and-field zero a m = rw (pow-zero, mul-one, div-one, mul-one)
bit_and-field (suc k) a m =
    bit_and a (m * 2 ^ suc k)
    ≡⟨ ap (bit_and a) (omega (arith, ap (λ (t : ℕ). m * t) (pow-suc 2 k))) ⟩
      bit_and a (2 * (m * 2 ^ k))
    ≡⟨ bit_and-even a (m * 2 ^ k) ⟩ 2 * bit_and (a / 2) (m * 2 ^ k)
    ≡⟨ ap (λ (t : ℕ). 2 * t) (bit_and-field k (a / 2) m) ⟩ 2 * (bit_and (a / 2 / 2 ^ k) m * 2 ^ k)
    ≡⟨ ap (λ (t : ℕ). 2 * (bit_and t m * 2 ^ k)) deeper ⟩ 2 * (bit_and (a / 2 ^ suc k) m * 2 ^ k)
    ≡⟨ omega (arith, ap (λ (t : ℕ). bit_and (a / 2 ^ suc k) m * t) (pow-suc 2 k)) ⟩
      bit_and (a / 2 ^ suc k) m * 2 ^ suc k ∎
  where
    deeper : a / 2 / 2 ^ k ≡ a / 2 ^ suc k
    deeper = div-div-eq-div-mul a 2 (2 ^ k) ∙ ap (λ (t : ℕ). a / t) (omega (arith, pow-suc 2 k))

-- `(q << k) | r` is a sum where `r` fits below digit `k`.
pub bit_or-join : (k q r : ℕ) → r < 2 ^ k → bit_or (q * 2 ^ k) r ≡ q * 2 ^ k + r
bit_or-join zero q r h = omega (arith, bit_or-zero (q * 2 ^ 0), ap (bit_or (q * 2 ^ 0)) gone)
  where
    gone : r ≡ 0
    gone = omega arith
bit_or-join (suc k) q r h = omega (
  arith,
  bit_or_digit (q * 2 ^ suc k) r,
  ap (λ (t : ℕ). bit_or t (r / 2)) halved,
  bit_or-join k q (r / 2) (omega (arith, pow-suc 2 k)),
  ap (λ (t : ℕ). q * t) (pow-suc 2 k),
)
  where
    halved : q * 2 ^ suc k / 2 ≡ q * 2 ^ k
    halved = omega (arith, ap (λ (t : ℕ). q * t) (pow-suc 2 k))
