-- ===== src/Sampling/Mean.antt =====
-- The offset word of a measurement (system.c) as the mean of its samples.
use rtos_hm_board.Prelude.{
  ℕ, ◌+◌, ◌*◌, ◌%◌, ◌^◌, ◌<◌, ◌≡◌, arith, List, [], ◌∷◌, length, ap, ◌∙◌, sym,
}
use rtos_hm_board.Prelude.Signed.{
  ℤ, pos, ◌+ℤ◌, int16, int32, widen, int_laws, int32-add, int32-widen, quotient,
}
use rtos_hm_board.Config.{mem_signal_length}
use rtos_hm_board.Sampling.{Readings, adca_read_ch0}
use rtos_hm_board.Sampling.Average.{IsWithin, +ℤ-IsWithin}
use rtos_hm_board.Sampling.Run.{running_sum, mean_word}

pub sum_of : List Readings → ℤ
sum_of [] = pos 0
sum_of (r ∷ rs) = int16 (adca_read_ch0 r) +ℤ sum_of rs

-- The shift leaves two bits of room.
abbrev pub IsSample : ℕ → Type 0
IsSample w = (w < 2 ^ 16) × IsWithin (2 ^ 13) (int16 w)

pub adca_read_ch0-IsSample : (r : Readings) → IsSample (adca_read_ch0 r)
unfolding adca_read_ch0
adca_read_ch0-IsSample r = ground arith

add-IsWithin :
    (k o w : ℕ)
    → o < 2 ^ 32
    → IsSample w
    → IsWithin k (int32 o)
    → k + 2 ^ 13 < 2 ^ 31
    → (int32 ((o + widen w) % 2 ^ 32) ≡ int32 o +ℤ int16 w)
      × IsWithin (k + 2 ^ 13) (int32 o +ℤ int16 w)
add-IsWithin k o w ho hw within room =
    let e : int32 (widen w) ≡ int16 w = int32-widen w hw.0 in
    let inside = +ℤ-IsWithin k (2 ^ 13) (int32 o) (int16 w) within hw.1 in
    (
      int32-add o (widen w) ho (ground arith) (rw e (omega (arith, inside)))
            (rw e (omega (arith, inside)))
          ∙ ap (λ t. int32 o +ℤ t) e,
      inside,
    )

+ℤ-zero : (a : ℤ) → a +ℤ pos 0 ≡ a
+ℤ-zero a = omega int_laws

zero-+ℤ : (a : ℤ) → pos 0 +ℤ a ≡ a
zero-+ℤ a = omega int_laws

+ℤ_assoc : (a b c : ℤ) → a +ℤ b +ℤ c ≡ a +ℤ (b +ℤ c)
+ℤ_assoc a b c = omega int_laws

-- The running sum does not wrap, and is the true sum.
int32-running_sum :
    (k o : ℕ) (rs : List Readings)
    → o < 2 ^ 32
    → IsWithin k (int32 o)
    → k + 2 ^ 13 * length rs < 2 ^ 31
    → (running_sum o rs < 2 ^ 32)
      × (int32 (running_sum o rs) ≡ int32 o +ℤ sum_of rs)
      × IsWithin (k + 2 ^ 13 * length rs) (int32 (running_sum o rs))
unfolding running_sum sum_of
int32-running_sum k o [] ho within room = (ho, sym (+ℤ-zero (int32 o)), wider)
  where
    wider : IsWithin (k + 2 ^ 13 * 0) (int32 o)
    wider = omega (arith, within)
int32-running_sum k o (r ∷ rs) ho within room =
    let w = adca_read_ch0 r in
    let added = add-IsWithin k o w ho (adca_read_ch0-IsSample r) within (omega arith) in
    let rest =
      int32-running_sum (k + 2 ^ 13) ((o + widen w) % 2 ^ 32) rs (omega arith) (rw added.0 added.1)
        (omega arith) in
    (
      rest.0,
      rest.1 ∙ ap (λ t. t +ℤ sum_of rs) added.0 ∙ +ℤ_assoc (int32 o) (int16 w) (sum_of rs),
      (omega (arith, rest.2), omega (arith, rest.2)),
    )

-- A division of the sum, cut to 16 bits, loses nothing.
int16-mean_word :
    (o : ℕ)
    → o < 2 ^ 32
    → IsWithin (2 ^ 24) (int32 o)
    → int16 (mean_word o) ≡ quotient (int32 o) mem_signal_length
int16-mean_word o ho h = ground arith

-- Whatever the converter returns, the word that a whole measurement of 2048 samples stores as the
-- signal's offset stands for the sum of its samples, divided by 2048 and rounded to zero.
pub mean-running_sum :
    (rs : List Readings)
    → length rs ≡ mem_signal_length
    → int16 (mean_word (running_sum 0 rs)) ≡ quotient (sum_of rs) mem_signal_length
mean-running_sum rs e =
    let summed = int32-running_sum 0 0 rs (omega arith) (omega arith) (omega (arith, e)) in
    int16-mean_word (running_sum 0 rs) summed.0 (omega (arith, summed.2, e))
    ∙ ap (λ t. quotient t mem_signal_length) (summed.1 ∙ zero-+ℤ (sum_of rs))
