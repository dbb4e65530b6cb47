-- ===== src/Tests/Residues.antt =====
-- Exact numbers: the residues of a prime that has roots of unity of order 512. They stand for the
-- sines and cosines of the table.
use mathlib.Core.HLevel.{Σ_prop_path}
use native.Mathlib.Bridge.{le_prop}
use native.Mathlib.Nat.{add-mul-mod_self_left}
use rtos_hm_board.Prelude.{
  ℕ, suc, ◌+◌, ◌-◌, ◌*◌, ◌%◌, ◌/◌, ◌^◌, ◌<◌, ◌≡◌, refl, sym, ap, ap₂, ◌∙◌, arith, List, [], ◌∷◌,
  get_or, ◌==◌, if◌then◌else◌, Bool, true, ◌&&◌, passes, passes_below,
}
use rtos_hm_board.Prelude.Signed.{ℤ, pos, negsuc, pos_part}
use rtos_hm_board.SpiMemory.{FloatOps, FloatLaws, Complex}
use rtos_hm_board.Fft.Sincos.{sincos_first}
use rtos_hm_board.Fft.{sincos}
use rtos_hm_board.Fft.Exact.{ExactOps, ExactTable, angle, complex_ring}
use rtos_hm_board.Tests.Chip.{bus}

abbrev pub Residue : Type 0
Residue = (n : ℕ) × (n < 7681)

pub in_range : (n : ℕ) → n % 7681 < 7681
in_range n = omega arith

abbrev pub residue : ℕ → Residue
residue n = (n % 7681, in_range n)

-- The residue for a number of millionths that stands in the first quarter of the table, where the
-- sine and the cosine of the next angle are `si` and `co`.
find : List ℤ → ℕ → ℕ → ℕ → ℕ
find [] si co m = 0
find (x ∷ []) si co m = 0
find (x ∷ y ∷ rest) si co m =
    let later =
      find rest ((si * 4429 + co * 4683) % 7681) ((co * 4429 + si * (7681 - 4683)) % 7681) m in
    if pos_part x == m then si else if pos_part y == m then co else later

of_millionths : ℤ → ℕ
unfolding find
of_millionths (pos m) = find sincos_first 0 1 m
of_millionths (negsuc m) = 7681 - find sincos_first 0 1 (suc m)

unfoldable pub of_micro : ℤ → Residue
unfolding of_millionths
of_micro z = residue (of_millionths z)

abbrev pub residues : FloatOps
residues = record {
  Float = Residue;
  add = λ x y. residue (x.0 + y.0);
  sub = λ x y. residue (x.0 + 7681 - y.0);
  mul = λ x y. residue (x.0 * y.0);
  of_int = λ w. residue w;
  to_int = λ x. x.0;
  of_micro = of_micro;
  log = λ x. x;
  to_bytes = λ x. x.0 % 2 ^ 8 ∷ x.0 / 2 ^ 8 ∷ 0 ∷ 0 ∷ [];
  of_bytes = λ xs. residue (get_or xs 0 0 + 2 ^ 8 * get_or xs 1 0);
}

pub residues_laws : FloatLaws residues
residues_laws = record {
  length-to_bytes = λ x. refl;
  to_bytes-Bytes = λ x. (omega arith, (omega (arith, x.1), (omega arith, (omega arith, tt))));
  of_bytes-to_bytes = λ x. Σ_prop_path (λ n. le_prop) (omega (arith, x.1));
}

mod-mul_left : (a b : ℕ) → a % 7681 * b % 7681 ≡ a * b % 7681
mod-mul_left a b =
    sym (add-mul-mod_self_left (a % 7681 * b) 7681 (a / 7681 * b)) ∙ ap (λ t. t % 7681) whole
  where
    split : a % 7681 + 7681 * (a / 7681) ≡ a
    split = omega arith

    whole : a % 7681 * b + 7681 * (a / 7681 * b) ≡ a * b
    whole = omega (arith, ap (λ (t : ℕ). t * b) split)

mod-mul_right : (a b : ℕ) → a * (b % 7681) % 7681 ≡ a * b % 7681
mod-mul_right a b = ap (λ (t : ℕ). t % 7681) swap ∙ mod-mul_left b a ∙ ap (λ (t : ℕ). t % 7681) back
  where
    swap : a * (b % 7681) ≡ b % 7681 * a
    swap = omega arith

    back : b * a ≡ a * b
    back = omega arith

one_lem : of_micro (pos 1000000) ≡ residue 1
unfolding of_micro
one_lem = Σ_prop_path (λ n. le_prop) refl

pub residues_exact : ExactOps residues
residues_exact = record {
  add_assoc = λ a b c. Σ_prop_path (λ n. le_prop) (omega arith);
  add_comm = λ a b. Σ_prop_path (λ n. le_prop) (omega arith);
  add-zero = λ a. Σ_prop_path (λ n. le_prop) (omega (arith, a.1));
  sub-add_neg = λ a b. Σ_prop_path (λ n. le_prop) (omega (arith, b.1));
  sub_self = λ a. Σ_prop_path (λ n. le_prop) (omega (arith, a.1));
  mul_assoc = λ a b c.
      Σ_prop_path (λ n. le_prop)
        (mod-mul_left (a.0 * b.0) c.0
          ∙ ap (λ (t : ℕ). t % 7681) (omega arith)
          ∙ sym (mod-mul_right a.0 (b.0 * c.0)));
  mul_comm = λ a b. Σ_prop_path (λ n. le_prop) (omega arith);
  mul-add = λ a b c. Σ_prop_path (λ n. le_prop) (mod-mul_right a.0 (b.0 + c.0) ∙ omega arith);
  mul-one = λ a. ap (residues.mul a) one_lem ∙ Σ_prop_path (λ n. le_prop) (omega (arith, a.1));
}

abbrev at : ℕ → Complex residues
at = angle bus residues

-- Two complex numbers with the same residues.
abbrev same : Complex residues → Complex residues → Bool
same a b = (a.real.0 == b.real.0) && (a.imag.0 == b.imag.0)

same_lem : (a b : Complex residues) → same a b ≡ true → a ≡ b
same_lem a b h =
    ap₂ (λ x y. record { real = x; imag = y }) (Σ_prop_path (λ n. le_prop) (ground (arith, h)))
      (Σ_prop_path (λ n. le_prop) (ground (arith, h)))

turns : passes (λ k. same (at (k + 1)) ((complex_ring residues_exact).mul (at k) (at 1))) 255 ≡ true
unfolding passes sincos of_micro
turns = refl

half :
    same
      ((complex_ring residues_exact).mul (at 255) (at 1))
      ((complex_ring residues_exact).neg (complex_ring residues_exact).one)
    ≡ true
unfolding sincos of_micro
half = refl

start : same (at 0) (complex_ring residues_exact).one ≡ true
unfolding sincos of_micro
start = refl

pub residues_table : ExactTable bus residues_exact
residues_table = record {
  no_angle = same_lem _ _ start;
  next_angle = λ k lt. same_lem _ _ (passes_below _ k 255 lt turns);
  half_turn = same_lem _ _ half;
}
