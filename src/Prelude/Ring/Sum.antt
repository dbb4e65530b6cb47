-- ===== src/Prelude/Ring/Sum.antt =====
-- Finite sums in a ring.
use rtos_hm_board.Prelude.{ℕ, zero, suc, ◌+◌, ◌*◌, ◌<◌, ◌≡◌, refl, sym, ap, ap₂, ◌∙◌, arith}
use rtos_hm_board.Prelude.Ring.{Ring, ◌⊕◌, ◌⊗◌, zero-mul, add_interchange}

module _ {ℓ} {A : Type ℓ} ⦃s : Ring A⦄ where
  -- The sum of `f 0` to `f (n - 1)`.
  unfoldable pub sum : ℕ → (ℕ → A) → A
  sum zero f = s.zero
  sum (suc n) f = sum n f ⊕ f n

  pub sum_congr : (n : ℕ) {f g : ℕ → A} → ((k : ℕ) → k < n → f k ≡ g k) → sum n f ≡ sum n g
  unfolding sum
  sum_congr zero h = refl
  sum_congr (suc n) h =
      ap₂ (λ x y. x ⊕ y) (sum_congr n (λ k lt. h k (omega arith))) (h n (omega arith))

  pub sum-mul : (n : ℕ) (f : ℕ → A) (a : A) → sum n f ⊗ a ≡ sum n (λ k. f k ⊗ a)
  unfolding sum
  sum-mul zero f a = zero-mul a
  sum-mul (suc n) f a = s.add-mul (sum n f) (f n) a ∙ ap (λ x. x ⊕ (f n ⊗ a)) (sum-mul n f a)

  -- The even and the odd terms apart.
  pub sum_double :
      (n : ℕ) (f : ℕ → A) → sum (2 * n) f ≡ sum n (λ k. f (2 * k)) ⊕ sum n (λ k. f (2 * k + 1))
  unfolding sum
  sum_double zero f = sym (s.add-zero s.zero)
  sum_double (suc n) f =
      let even = sum n (λ k. f (2 * k)) in
      let odd = sum n (λ k. f (2 * k + 1)) in
      rw (two, sum_double n f)
        (s.add_assoc (even ⊕ odd) (f (2 * n)) (f (suc (2 * n)))
          ∙ add_interchange even odd (f (2 * n)) (f (suc (2 * n)))
          ∙ ap (λ k. (even ⊕ f (2 * n)) ⊕ (odd ⊕ f k)) next)
    where
      two : 2 * suc n ≡ suc (suc (2 * n))
      two = omega arith

      next : suc (2 * n) ≡ 2 * n + 1
      next = omega arith
