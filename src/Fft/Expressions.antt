-- ===== src/Fft/Expressions.antt =====
-- The arithmetic of fft_memory.c as expressions, which any kind of numbers evaluates.
use rtos_hm_board.Prelude.{ℕ, ◌*◌, ◌%◌, ltb, ◌≡◌, refl, ap, ◌∙◌, fun_ext, [], Bool-cases, inl, inr}
use rtos_hm_board.Prelude.Signed.{ℤ}
use rtos_hm_board.SpiMemory.{FloatOps, Complex}
use rtos_hm_board.SpiMemory.Bus.{SpiBus}
use rtos_hm_board.Fft.{sincos, butterfly}
use rtos_hm_board.Fft.Transform.{stage_of, transform}

-- What the code computes from integers and the constants of its tables.
pub data Expression : Type 0 where
  sum difference product : Expression → Expression → Expression
  of_int : ℕ → Expression
  of_micro : ℤ → Expression
  logarithm : Expression → Expression

-- Expressions in the place of the numbers. They are not stored and not cut to integers.
abbrev pub expressions : FloatOps
expressions = record {
  Float = Expression;
  add = sum;
  sub = difference;
  mul = product;
  of_int = of_int;
  to_int = λ x. 0;
  of_micro = of_micro;
  log = logarithm;
  to_bytes = λ x. [];
  of_bytes = λ xs. of_int 0;
}

module _ (f : FloatOps) where
  -- The value of an expression, each operation done and rounded as the numbers do it.
  abbrev pub value : Expression → f.Float
  value (sum x y) = f.add (value x) (value y)
  value (difference x y) = f.sub (value x) (value y)
  value (product x y) = f.mul (value x) (value y)
  value (of_int n) = f.of_int n
  value (of_micro z) = f.of_micro z
  value (logarithm x) = f.log (value x)

  abbrev pub complex_value : Complex expressions → Complex f
  complex_value c = record { real = value c.real; imag = value c.imag }

module _ (bus : SpiBus) (f : FloatOps) where
  stage-value :
      (n angf : ℕ) (p : ℕ → Complex expressions)
      → (λ j. complex_value f (stage_of bus expressions n angf p j))
        ≡ stage_of bus f n angf (λ j. complex_value f (p j))
  unfolding stage_of butterfly sincos
  stage-value n angf p = fun_ext (λ j. elim (Bool-cases (ltb (j % (2 * n)) n)) [
    | inl low ↦ rw low refl
    | inr high ↦ rw high refl
  ])

  stage-values :
      (n angf : ℕ) (p : ℕ → Complex expressions) (q : ℕ → Complex f)
      → ((i : ℕ) → complex_value f (p i) ≡ q i)
      → (j : ℕ) → complex_value f (stage_of bus expressions n angf p j) ≡ stage_of bus f n angf q j
  stage-values n angf p q same j =
      ap (λ (r : ℕ → Complex f). r j) (stage-value n angf p)
      ∙ ap (λ (r : ℕ → Complex f). stage_of bus f n angf r j) (fun_ext same)

  -- The transform of expressions has the values of the transform of their values.
  pub transform-value :
      (p : ℕ → Complex expressions) (j : ℕ)
      → complex_value f (transform bus expressions p j)
        ≡ transform bus f (λ i. complex_value f (p i)) j
  transform-value p = stage-values 256 1 _ _ (
      stage-values 128 2 _ _ (
        stage-values 64 4 _ _ (
          stage-values 32 8 _ _ (
            stage-values 16 16 _ _ (
              stage-values 8 32 _ _ (
                stage-values 4 64 _ _
                  (stage-values 2 128 _ _ (stage-values 1 256 p _ (λ i. refl)))))))))
