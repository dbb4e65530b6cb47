-- ===== src/Prelude/Ring/Gauss.antt =====
-- Complex numbers over a commutative ring: the real and the imaginary part of sums and products.
use rtos_hm_board.Prelude.{◌≡◌}
use rtos_hm_board.Prelude.Ring.{Ring, ◌⊕◌, ◌⊗◌, ◌⊖◌, neg-zero, mul-zero, zero-mul, expand}

module _ {ℓ} {A : Type ℓ} ⦃s : Ring A⦄ where
  -- The product of a + b i and c + d i.
  abbrev pub re : A → A → A → A → A
  re a b c d = (a ⊗ c) ⊖ (b ⊗ d)

  abbrev pub im : A → A → A → A → A
  im a b c d = (a ⊗ d) ⊕ (b ⊗ c)

  pub re_assoc :
      (a b c d x y : A) → re (re a b c d) (im a b c d) x y ≡ re a b (re c d x y) (im c d x y)
  re_assoc a b c d x y = simp expand

  pub im_assoc :
      (a b c d x y : A) → im (re a b c d) (im a b c d) x y ≡ im a b (re c d x y) (im c d x y)
  im_assoc a b c d x y = simp expand

  pub re-add : (a b c d x y : A) → re a b (c ⊕ x) (d ⊕ y) ≡ re a b c d ⊕ re a b x y
  re-add a b c d x y = simp expand

  pub im-add : (a b c d x y : A) → im a b (c ⊕ x) (d ⊕ y) ≡ im a b c d ⊕ im a b x y
  im-add a b c d x y = simp expand

  pub add-re : (a b c d x y : A) → re (a ⊕ c) (b ⊕ d) x y ≡ re a b x y ⊕ re c d x y
  add-re a b c d x y = simp expand

  pub add-im : (a b c d x y : A) → im (a ⊕ c) (b ⊕ d) x y ≡ im a b x y ⊕ im c d x y
  add-im a b c d x y = simp expand

  pub one-re : (a b : A) → re s.one s.zero a b ≡ a
  one-re a b = simp (s.one-mul, ◌⊖◌, zero-mul, neg-zero, s.add-zero)

  pub one-im : (a b : A) → im s.one s.zero a b ≡ b
  one-im a b = simp (s.one-mul, zero-mul, s.add-zero)

  pub re-one : (a b : A) → re a b s.one s.zero ≡ a
  re-one a b = simp (s.mul-one, ◌⊖◌, mul-zero, neg-zero, s.add-zero)

  pub im-one : (a b : A) → im a b s.one s.zero ≡ b
  im-one a b = simp (s.mul-one, mul-zero, s.add_comm, s.add-zero)
