-- ===== src/Prelude/Ring.antt =====
-- Rings, for arithmetic without rounding: the laws that the transform of fft_memory.c relies on.
pub mod Sum
pub mod Gauss
use rtos_hm_board.Prelude.{ℕ, zero, suc, ◌+◌, ◌≡◌, refl, sym, ap, ap₂, ◌∙◌, arith}

pub record Ring {ℓ} (A : Type ℓ) : Type ℓ where
  pub one : A
  pub mul : A → A → A
  pub mul-one : (x : A) → mul x one ≡ x
  pub one-mul : (x : A) → mul one x ≡ x
  pub mul_assoc : (x y z : A) → mul (mul x y) z ≡ mul x (mul y z)
  pub zero : A
  pub neg : A → A
  pub add : A → A → A
  pub add-neg : (x : A) → add x (neg x) ≡ zero
  pub add-zero : (x : A) → add x zero ≡ x
  pub add_comm : (x y : A) → add x y ≡ add y x
  pub add_assoc : (x y z : A) → add (add x y) z ≡ add x (add y z)
  pub add-mul : (x y z : A) → mul (add x y) z ≡ add (mul x z) (mul y z)
  pub mul-add : (x y z : A) → mul x (add y z) ≡ add (mul x y) (mul x z)

module _ {ℓ} {A : Type ℓ} ⦃s : Ring A⦄ where
  infixl 70 ◌⊗◌
  infixl 65 ◌⊖◌ ◌⊕◌
  abbrev pub ◌⊗◌ : A → A → A
  x ⊗ y = s.mul x y

  abbrev pub ◌⊕◌ : A → A → A
  x ⊕ y = s.add x y

  abbrev pub ◌⊖◌ : A → A → A
  x ⊖ y = x ⊕ s.neg y

  -- The laws under names that a set of rules can list.
  pub add_assoc : (a b c : A) → (a ⊕ b) ⊕ c ≡ a ⊕ (b ⊕ c)
  add_assoc = s.add_assoc

  pub add_comm : (a b : A) → a ⊕ b ≡ b ⊕ a
  add_comm = s.add_comm

  pub mul_assoc : (a b c : A) → (a ⊗ b) ⊗ c ≡ a ⊗ (b ⊗ c)
  mul_assoc = s.mul_assoc

  pub mul-add : (a b c : A) → a ⊗ (b ⊕ c) ≡ (a ⊗ b) ⊕ (a ⊗ c)
  mul-add = s.mul-add

  pub add-mul : (a b c : A) → (a ⊕ b) ⊗ c ≡ (a ⊗ c) ⊕ (b ⊗ c)
  add-mul = s.add-mul

  pub add_left_comm : (a b c : A) → a ⊕ (b ⊕ c) ≡ b ⊕ (a ⊕ c)
  add_left_comm a b c =
      sym (s.add_assoc a b c) ∙ ap (λ x. x ⊕ c) (s.add_comm a b) ∙ s.add_assoc b a c

  pub add_interchange : (a b c d : A) → (a ⊕ b) ⊕ (c ⊕ d) ≡ (a ⊕ c) ⊕ (b ⊕ d)
  add_interchange a b c d = simp (s.add_assoc, add_left_comm)

  -- What has the sum zero with `a` is its negative.
  pub eq-neg_of_add : (a b : A) → a ⊕ b ≡ s.zero → b ≡ s.neg a
  eq-neg_of_add a b h =
      sym (s.add-zero b)
      ∙ ap (λ x. b ⊕ x) (sym (s.add-neg a))
      ∙ sym (s.add_assoc b a (s.neg a))
      ∙ ap (λ x. x ⊖ a) (s.add_comm b a ∙ h)
      ∙ s.add_comm s.zero (s.neg a)
      ∙ s.add-zero (s.neg a)

  -- What changes nothing that it is added to is zero.
  eq-zero_of_add : (a b : A) → a ⊕ b ≡ a → b ≡ s.zero
  eq-zero_of_add a b h =
      sym (s.add-zero b)
      ∙ ap (λ x. b ⊕ x) (sym (s.add-neg a))
      ∙ sym (s.add_assoc b a (s.neg a))
      ∙ ap (λ x. x ⊖ a) (s.add_comm b a ∙ h)
      ∙ s.add-neg a

  pub mul-zero : (a : A) → a ⊗ s.zero ≡ s.zero
  mul-zero a =
      eq-zero_of_add (a ⊗ s.zero) (a ⊗ s.zero)
        (sym (s.mul-add a s.zero s.zero) ∙ ap (λ x. a ⊗ x) (s.add-zero s.zero))

  pub zero-mul : (a : A) → s.zero ⊗ a ≡ s.zero
  zero-mul a =
      eq-zero_of_add (s.zero ⊗ a) (s.zero ⊗ a)
        (sym (s.add-mul s.zero s.zero a) ∙ ap (λ x. x ⊗ a) (s.add-zero s.zero))

  pub neg-zero : s.neg s.zero ≡ s.zero
  neg-zero = sym (eq-neg_of_add s.zero s.zero (s.add-zero s.zero))

  pub neg-neg : (a : A) → s.neg (s.neg a) ≡ a
  neg-neg a = sym (eq-neg_of_add (s.neg a) a (s.add_comm (s.neg a) a ∙ s.add-neg a))

  pub mul-neg : (a b : A) → a ⊗ s.neg b ≡ s.neg (a ⊗ b)
  mul-neg a b =
      eq-neg_of_add (a ⊗ b) (a ⊗ s.neg b)
        (sym (s.mul-add a b (s.neg b)) ∙ ap (λ x. a ⊗ x) (s.add-neg b) ∙ mul-zero a)

  pub neg-mul : (a b : A) → s.neg a ⊗ b ≡ s.neg (a ⊗ b)
  neg-mul a b =
      eq-neg_of_add (a ⊗ b) (s.neg a ⊗ b)
        (sym (s.add-mul a (s.neg a) b) ∙ ap (λ x. x ⊗ b) (s.add-neg a) ∙ zero-mul b)

  pub neg-add : (a b : A) → s.neg (a ⊕ b) ≡ s.neg a ⊕ s.neg b
  neg-add a b = sym (
      eq-neg_of_add (a ⊕ b) (s.neg a ⊕ s.neg b) (
        add_interchange a b (s.neg a) (s.neg b)
        ∙ ap₂ (λ x y. x ⊕ y) (s.add-neg a) (s.add-neg b)
        ∙ s.add-zero s.zero))

  -- Powers.
  unfoldable pub pow : A → ℕ → A
  pow a zero = s.one
  pow a (suc n) = pow a n ⊗ a

  pub pow-add : (a : A) (m n : ℕ) → pow a (m + n) ≡ pow a m ⊗ pow a n
  unfolding pow
  pow-add a m zero = ap (pow a) (omega arith) ∙ sym (s.mul-one (pow a m))
  pow-add a m (suc n) =
      ap (pow a) sum_lem ∙ ap (λ x. x ⊗ a) (pow-add a m n) ∙ s.mul_assoc (pow a m) (pow a n) a
    where
      sum_lem : m + suc n ≡ suc (m + n)
      sum_lem = omega arith

-- Sums of products, with the negatives inside, in one order.
pub ruleset expand = (
  ◌⊖◌, mul-add, add-mul, mul-neg, neg-mul, neg-add, neg-neg, mul_assoc, add_assoc, add_comm,
  add_left_comm,
)
