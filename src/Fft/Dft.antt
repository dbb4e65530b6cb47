-- ===== src/Fft/Dft.antt =====
-- The stages of `FFT_calculate` over a ring, and the sums that they compute.
use native.Mathlib.Nat.{mod-eq_of_lt, add-mul-mod_self_right}
use rtos_hm_board.Prelude.{
  ℕ, zero, suc, ◌+◌, ◌-◌, ◌*◌, ◌%◌, ◌^◌, ◌<◌, ltb, if◌then◌else◌, ◌≡◌, refl, sym, ap, ap₂, ◌∙◌,
  arith, dec_lt, lt→ltb, false,
}
use rtos_hm_board.Prelude.Ring.{Ring, ◌⊕◌, ◌⊗◌, ◌⊖◌, pow, pow-add, mul-neg, neg-neg}
use rtos_hm_board.Prelude.Ring.Sum.{sum, sum_congr, sum-mul, sum_double}
use rtos_hm_board.Fft.Reversal.{reverse_bits, reverse_bits-even, reverse_bits-odd}

module _ {ℓ} {A : Type ℓ} ⦃s : Ring A⦄ (w : A) where
  -- The discrete Fourier transform of `n` points for the root of unity `w`, at place `j`.
  unfoldable pub dft : ℕ → (ℕ → A) → ℕ → A
  dft n x j = sum n (λ k. x k ⊗ pow w (j * k))

  -- One stage: the points `n` apart are joined, with a power of `w` that depends on the place.
  unfoldable pub ring_stage : ℕ → ℕ → (ℕ → A) → ℕ → A
  ring_stage n angf p j =
      let place = j % (2 * n) in
      if ltb place n
      then p j ⊕ (p (j + n) ⊗ pow w (place * angf))
      else p (j - n) ⊖ (p j ⊗ pow w ((place - n) * angf))

  -- The transform of the points that start at `r` and are `h` apart.
  part : ℕ → ℕ → (ℕ → A) → ℕ → ℕ → A
  part n h x r d = sum n (λ k. x (r + k * h) ⊗ pow w (d * (k * h)))

  -- The parts from two interleaved halves.
  part-double :
      (n h : ℕ) (x : ℕ → A) (r d : ℕ)
      → part n (2 * h) x r d ⊕ (part n (2 * h) x (r + h) d ⊗ pow w (d * h)) ≡ part (2 * n) h x r d
  unfolding part
  part-double n h x r d =
      ap₂ (λ a b. a ⊕ b)
        (sum_congr n (λ k lt. ap₂ (λ i j. x i ⊗ pow w j) (even_place k) (even_power k)))
        (sum-mul n _ (pow w (d * h))
          ∙ sum_congr n (λ k lt.
            s.mul_assoc (x (r + h + k * (2 * h))) (pow w (d * (k * (2 * h)))) (pow w (d * h))
            ∙ ap₂ (λ i j. x i ⊗ j) (odd_place k)
                (sym (pow-add w (d * (k * (2 * h))) (d * h)) ∙ ap (pow w) (odd_power k))))
      ∙ sym (sum_double n (λ k. x (r + k * h) ⊗ pow w (d * (k * h))))
    where
      even_place : (k : ℕ) → r + k * (2 * h) ≡ r + 2 * k * h
      even_place k = omega arith

      even_power : (k : ℕ) → d * (k * (2 * h)) ≡ d * (2 * k * h)
      even_power k = omega arith

      odd_place : (k : ℕ) → r + h + k * (2 * h) ≡ r + (2 * k + 1) * h
      odd_place k = omega arith

      odd_power : (k : ℕ) → d * (k * (2 * h)) + d * h ≡ d * ((2 * k + 1) * h)
      odd_power k = omega arith

  module _ (half_turn : pow w 256 ≡ s.neg s.one) where
    pow-half : (a : ℕ) → pow w (a + 256) ≡ s.neg (pow w a)
    pow-half a =
        pow-add w a 256
        ∙ ap (λ t. pow w a ⊗ t) half_turn
        ∙ mul-neg (pow w a) s.one
        ∙ ap s.neg (s.mul-one (pow w a))

    pow-turn : (a k : ℕ) → pow w (a + k * 512) ≡ pow w a
    pow-turn a zero = ap (pow w) (omega arith)
    pow-turn a (suc k) =
        ap (pow w) more
        ∙ pow-half (a + k * 512 + 256)
        ∙ ap s.neg (pow-half (a + k * 512))
        ∙ neg-neg (pow w (a + k * 512))
        ∙ pow-turn a k
      where
        more : a + suc k * 512 ≡ a + k * 512 + 256 + 256
        more = omega arith

    -- A part repeats after its length.
    part-turn :
        (n h : ℕ) (x : ℕ → A) (r d : ℕ) → n * h ≡ 512 → part n h x r (d + n) ≡ part n h x r d
    unfolding part
    part-turn n h x r d whole =
        sum_congr n
          (λ k lt. ap (λ t. x (r + k * h) ⊗ t) (ap (pow w) (more k) ∙ pow-turn (d * (k * h)) k))
      where
        more : (k : ℕ) → (d + n) * (k * h) ≡ d * (k * h) + k * 512
        more k = omega (arith, ap (λ (t : ℕ). k * t) whole)

    -- The upper half of the places.
    part-half :
        (n h : ℕ) (x : ℕ → A) (r d : ℕ)
        → n * (2 * h) ≡ 512
        → part n (2 * h) x r d ⊖ (part n (2 * h) x (r + h) d ⊗ pow w (d * h))
          ≡ part (2 * n) h x r (d + n)
    part-half n h x r d whole =
        ap₂ (λ a b. a ⊕ b) (sym (part-turn n (2 * h) x r d whole))
          (sym (mul-neg (part n (2 * h) x (r + h) d) (pow w (d * h)))
            ∙ ap₂ (λ a b. a ⊗ b) (sym (part-turn n (2 * h) x (r + h) d whole))
                (sym (pow-half (d * h)) ∙ ap (pow w) more))
        ∙ part-double n h x r (d + n)
      where
        more : d * h + 256 ≡ (d + n) * h
        more = omega (arith, whole)

    -- Each group of `n` places holds the transform of every `h`-th point, from the reversed number of
    -- the group on.
    abbrev Parts : ℕ → ℕ → ℕ → (ℕ → A) → (ℕ → A) → Type ℓ
    Parts n m h x p = (g d : ℕ) → g < h → d < n → p (d + g * n) ≡ part n h x (reverse_bits m g) d

    ring_stage-Parts :
        (n m h : ℕ) (x p : ℕ → A)
        → n * (2 * h) ≡ 512
        → 2 ^ m ≡ h
        → Parts n (suc m) (2 * h) x p
        → Parts (2 * n) m h x (ring_stage n h p)
    unfolding ring_stage reverse_bits
    ring_stage-Parts n m h x p whole power parts g d g_in d_in =
        let r = reverse_bits m g in
        let place : (d + g * (2 * n)) % (2 * n) ≡ d =
          add-mul-mod_self_right d g (2 * n) ∙ mod-eq_of_lt d_in in
        let even : (e j : ℕ) → e < n → j ≡ e + g * (2 * n) → p j ≡ part n (2 * h) x r e =
          λ e j lt at.
            ap p (at ∙ even_place e)
            ∙ parts (2 * g) e (omega arith) lt
            ∙ ap (λ t. part n (2 * h) x t e) even_start in
        let odd : (e j : ℕ) → e < n → j ≡ e + g * (2 * n) + n → p j ≡ part n (2 * h) x (r + h) e =
          λ e j lt at.
            ap p (at ∙ odd_place e)
            ∙ parts (2 * g + 1) e (omega arith) lt
            ∙ ap (λ t. part n (2 * h) x t e) odd_start in
        elim (dec_lt d n) [
          | yes low ↦
              rw (place, lt→ltb d n low)
                (ap₂ (λ a b. a ⊕ (b ⊗ pow w (d * h))) (even d _ low refl) (odd d _ low refl)
                  ∙ part-double n h x r d)
          | no high ↦
              let e = d - n in
              let split : d ≡ e + n = omega arith in
              let e_in : e < n = omega arith in
              let not_low : ltb d n ≡ false = ground arith in
              rw (place, not_low)
                (ap₂ (λ a b. a ⊖ (b ⊗ pow w (e * h))) (even e _ e_in (omega arith))
                    (odd e _ e_in (omega arith))
                  ∙ part-half n h x r e whole
                  ∙ ap (part (2 * n) h x r) (sym split))
        ]
      where
        even_place : (e : ℕ) → e + g * (2 * n) ≡ e + 2 * g * n
        even_place e = omega arith

        odd_place : (e : ℕ) → e + g * (2 * n) + n ≡ e + (2 * g + 1) * n
        odd_place e = omega arith

        even_start : reverse_bits (suc m) (2 * g) ≡ reverse_bits m g
        even_start = reverse_bits-even m g

        odd_start : reverse_bits (suc m) (2 * g + 1) ≡ reverse_bits m g + h
        odd_start = reverse_bits-odd m g ∙ ap (λ t. reverse_bits m g + t) power

    -- The nine stages of 512 points.
    abbrev pub ring_transform : (ℕ → A) → ℕ → A
    ring_transform p = ring_stage 256 1 (
        ring_stage 128 2 (
          ring_stage 64 4 (
            ring_stage 32 8 (
              ring_stage 16 16
                (ring_stage 8 32 (ring_stage 4 64 (ring_stage 2 128 (ring_stage 1 256 p))))))))

    start-Parts : (x : ℕ → A) → Parts 1 9 512 x (λ i. x (reverse_bits 9 i))
    unfolding part sum pow
    start-Parts x g d g_in d_in =
        let alone : d + g * 1 ≡ g = omega arith in
        let first : reverse_bits 9 g + 0 * 512 ≡ reverse_bits 9 g = omega arith in
        let none : d * (0 * 512) ≡ 0 = omega arith in
        ap (λ i. x (reverse_bits 9 i)) alone
        ∙ sym (
            ap₂ (λ i e. s.zero ⊕ (x i ⊗ pow w e)) first none
            ∙ s.add_comm s.zero _
            ∙ s.add-zero _
            ∙ s.mul-one _)

    -- Over a ring, for a root of unity of order 512: the nine stages turn the points in the order of
    -- the reversed digits into their transform.
    pub ring_transform-dft :
        (x : ℕ → A) (j : ℕ) → j < 512 → ring_transform (λ i. x (reverse_bits 9 i)) j ≡ dft 512 x j
    unfolding dft part reverse_bits
    ring_transform-dft x j lt =
        let at : j ≡ j + 0 * 512 = omega arith in
        let parts = ring_stage-Parts 256 0 1 x _ refl refl (
          ring_stage-Parts 128 1 2 x _ refl refl (
            ring_stage-Parts 64 2 4 x _ refl refl (
              ring_stage-Parts 32 3 8 x _ refl refl (
                ring_stage-Parts 16 4 16 x _ refl refl (
                  ring_stage-Parts 8 5 32 x _ refl refl (
                    ring_stage-Parts 4 6 64 x _ refl refl (
                      ring_stage-Parts 2 7 128 x _ refl refl
                        (ring_stage-Parts 1 8 256 x _ refl refl (start-Parts x))))))))) in
        ap (ring_transform (λ i. x (reverse_bits 9 i))) at
        ∙ parts 0 j (omega arith) lt
        ∙ sum_congr 512 (λ k lt. ap₂ (λ i e. x i ⊗ pow w e) (omega arith) (omega arith))
