-- ===== src/Prelude/Flags.antt =====
-- Flags of a register that are set and cleared under a mask.
use native.Mathlib.Nat.{pow-suc}
use Prim.Native.Nat.{max}
use rtos_hm_board.Prelude.{
  ℕ, zero, suc, ◌+◌, ◌-◌, ◌*◌, ◌/◌, ◌%◌, ◌^◌, ◌<◌, ◌≡◌, arith, bit_and, bit_or, min, ap, ap₂, ◌∙◌,
  sym,
}
use rtos_hm_board.Prelude.Bits.{bit_and_digit, bit_or_digit, bit_and-zero}
use rtos_hm_board.Prelude.Fields.{complement, bit_and-halves, complement-halves}

-- Set flags are found set.
pub bit_and-bit_or : (k a m : ℕ) → m < 2 ^ k → bit_and (bit_or a m) m ≡ m
bit_and-bit_or zero a m h =
    let none : m ≡ 0 = omega arith in
    ap (bit_and (bit_or a m)) none ∙ bit_and-zero (bit_or a m) ∙ sym none
bit_and-bit_or (suc k) a m h =
    let rest = bit_and-bit_or k (a / 2) (m / 2) (omega (arith, pow-suc 2 k)) in
    let high : bit_or a m / 2 ≡ bit_or (a / 2) (m / 2) = omega (arith, bit_or_digit a m) in
    let low : bit_or a m % 2 ≡ max (a % 2) (m % 2) = omega (arith, bit_or_digit a m) in
    bit_and_digit (bit_or a m) m
    ∙ ap₂ (λ x d. x * 2 + min d (m % 2)) (ap (λ t. bit_and t (m / 2)) high ∙ rest) low
    ∙ omega arith

-- Clearing a mask leaves a flag that is set and lies beside the mask, and clears the mask.
pub bit_and-complement :
    (k a m x : ℕ)
    → m < 2 ^ k
    → x < 2 ^ k
    → bit_and x m ≡ 0
    → bit_and a x ≡ x
    → (bit_and (bit_and a (complement k m)) x ≡ x) × (bit_and (bit_and a (complement k m)) m ≡ 0)
bit_and-complement zero a m x hm hx apart on =
    let cleared = bit_and a (complement 0 m) in
    let no_m : m ≡ 0 = omega arith in
    let no_x : x ≡ 0 = omega arith in
    (
      ap (bit_and cleared) no_x ∙ bit_and-zero cleared ∙ sym no_x,
      ap (bit_and cleared) no_m ∙ bit_and-zero cleared,
    )
bit_and-complement (suc k) a m x hm hx apart on =
    let cleared = bit_and a (complement (suc k) m) in
    let (c_high, c_low) = complement-halves k m hm in
    let (a_high, a_low) = bit_and-halves a (complement (suc k) m) in
    let (kept, gone) =
      bit_and-complement k (a / 2) (m / 2) (x / 2) (omega (arith, pow-suc 2 k))
        (omega (arith, pow-suc 2 k)) (omega (arith, bit_and_digit x m, apart))
        (omega (arith, bit_and_digit a x, on)) in
    let high : cleared / 2 ≡ bit_and (a / 2) (complement k (m / 2)) =
      a_high ∙ ap (bit_and (a / 2)) c_high in
    let low : cleared % 2 ≡ min (a % 2) (1 - m % 2) = a_low ∙ ap (min (a % 2)) c_low in
    let x_apart : min (x % 2) (m % 2) ≡ 0 = omega (arith, bit_and_digit x m, apart) in
    let x_on : min (a % 2) (x % 2) ≡ x % 2 = omega (arith, bit_and_digit a x, on) in
    (
      bit_and_digit cleared x
          ∙ ap₂ (λ t d. t * 2 + min d (x % 2)) (ap (λ t. bit_and t (x / 2)) high ∙ kept) low
          ∙ omega arith,
      bit_and_digit cleared m
          ∙ ap₂ (λ t d. t * 2 + min d (m % 2)) (ap (λ t. bit_and t (m / 2)) high ∙ gone) low
          ∙ omega arith,
    )
