-- ===== src/Tests/Floats.antt =====
-- A number format of 32 bits, as concrete functions.
use rtos_hm_board.Prelude.{ℕ, ◌+◌, ◌-◌, ◌*◌, ◌%◌, ◌/◌, ◌^◌, ◌<◌, refl, arith, [], ◌∷◌, get_or}
use mathlib.Core.HLevel.{Σ_prop_path}
use native.Mathlib.Bridge.{le_prop}
use rtos_hm_board.Prelude.Signed.{pos_part}
use rtos_hm_board.SpiMemory.{FloatOps, FloatLaws}

abbrev pub Word : Type 0
Word = (n : ℕ) × (n < 2 ^ 32)

pub in_range : (n : ℕ) → n % 2 ^ 32 < 2 ^ 32
in_range n = omega arith

abbrev pub word : ℕ → Word
word n = (n % 2 ^ 32, in_range n)

abbrev pub floats : FloatOps
floats = record {
  Float = Word;
  add = λ x y. word (x.0 + y.0);
  sub = λ x y. word (x.0 + 2 ^ 32 - y.0);
  mul = λ x y. word (x.0 * y.0);
  of_int = λ w. word w;
  to_int = λ x. x.0 % 2 ^ 16;
  of_micro = λ z. word (pos_part z / 1000000);
  log = λ x. x;
  to_bytes =
      λ x. x.0 % 2 ^ 8 ∷ x.0 / 2 ^ 8 % 2 ^ 8 ∷ x.0 / 2 ^ 16 % 2 ^ 8 ∷ x.0 / 2 ^ 24 % 2 ^ 8 ∷ [];
  of_bytes = λ xs.
      word
        (get_or xs 0 0 + 2 ^ 8 * get_or xs 1 0 + 2 ^ 16 * get_or xs 2 0 + 2 ^ 24 * get_or xs 3 0);
}

pub floats_laws : FloatLaws floats
floats_laws = record {
  length-to_bytes = λ x. refl;
  to_bytes-Bytes = λ x. (omega arith, (omega arith, (omega arith, (omega arith, tt))));
  of_bytes-to_bytes = λ x. Σ_prop_path (λ n. le_prop) (omega (arith, x.1));
}
