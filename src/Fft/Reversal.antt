-- ===== src/Fft/Reversal.antt =====
-- The table `bitrev` of fft_memory.c against a function that reverses binary digits.
use rtos_hm_board.Prelude.{
  ℕ, zero, suc, ◌+◌, ◌*◌, ◌/◌, ◌%◌, ◌^◌, ◌<◌, ◌≡◌, refl, ap₂, ◌∙◌, arith, true, ◌==◌, get_or,
  ==_iff, passes, passes_below,
}
use rtos_hm_board.Fft.Bitrev.{bitrev}

-- The lowest `k` digits of a number, in reverse.
unfoldable pub reverse_bits : ℕ → ℕ → ℕ
reverse_bits zero n = 0
reverse_bits (suc k) n = n % 2 * 2 ^ k + reverse_bits k (n / 2)

pub reverse_bits-even : (m g : ℕ) → reverse_bits (suc m) (2 * g) ≡ reverse_bits m g
unfolding reverse_bits
reverse_bits-even m g =
    let last : 2 * g % 2 ≡ 0 = omega arith in
    let others : 2 * g / 2 ≡ g = omega arith in
    ap₂ (λ a b. a * 2 ^ m + reverse_bits m b) last others ∙ omega arith

pub reverse_bits-odd : (m g : ℕ) → reverse_bits (suc m) (2 * g + 1) ≡ reverse_bits m g + 2 ^ m
unfolding reverse_bits
reverse_bits-odd m g =
    let last : (2 * g + 1) % 2 ≡ 1 = omega arith in
    let others : (2 * g + 1) / 2 ≡ g = omega arith in
    ap₂ (λ a b. a * 2 ^ m + reverse_bits m b) last others ∙ omega arith

checked : passes (λ i. get_or bitrev i 0 == reverse_bits 9 i) 512 ≡ true
unfolding passes reverse_bits
checked = refl

checked_twice : passes (λ i. get_or bitrev (get_or bitrev i 0) 0 == i) 512 ≡ true
unfolding passes
checked_twice = refl

checked_range : passes (λ i. get_or bitrev i 0 / 512 == 0) 512 ≡ true
unfolding passes
checked_range = refl

-- Each of the 512 entries of `bitrev` is its index with the nine binary digits reversed; so it is
-- an index again, and looking it up gives the first index back.
pub bitrev-IsReversal :
    (i : ℕ)
    → i < 512
    → (get_or bitrev i 0 ≡ reverse_bits 9 i)
      × (get_or bitrev i 0 < 512)
      × (get_or bitrev (get_or bitrev i 0) 0 ≡ i)
bitrev-IsReversal i h = (
  (==_iff _ (reverse_bits 9 i)).0 (passes_below _ i 512 h checked),
  omega (arith, (==_iff (get_or bitrev i 0 / 512) 0).0 (passes_below _ i 512 h checked_range)),
  (==_iff _ i).0 (passes_below _ i 512 h checked_twice),
)
