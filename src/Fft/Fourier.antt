-- ===== src/Fft/Fourier.antt =====
-- What `FFT_calculate` of fft_memory.c computes, against the discrete Fourier transform.
use rtos_hm_board.Prelude.{
  ℕ, ◌+◌, ◌*◌, ◌≤◌, ◌<◌, ◌≡◌, ap, ◌∙◌, sym, arith, fun_ext, List, length, get_or, some,
}
use rtos_hm_board.Config.{mem_signal_length, mem_signal_offset}
use rtos_hm_board.SpiMemory.{Spi, FloatOps, FloatLaws, Complex}
use rtos_hm_board.SpiMemory.Bus.{SpiBus, SerialMemory}
use rtos_hm_board.SpiMemory.Laws.{contents}
use rtos_hm_board.Sampling.{adca_read_ch0, Readings, Sampler}
use rtos_hm_board.Sampling.Run.{running_sum, mean_word, IsComplete}
use rtos_hm_board.Sampling.Signal.{silence}
use rtos_hm_board.Fft.{decimate_and_store, fft_calculate}
use rtos_hm_board.Fft.Reversal.{reverse_bits}
use rtos_hm_board.Fft.Points.{Holds}
use rtos_hm_board.Fft.Decimate.{point_of}
use rtos_hm_board.Fft.Transform.{stage_of, transform}
use rtos_hm_board.Fft.Expressions.{expressions, complex_value, transform-value}
use rtos_hm_board.Fft.Measured.{measured, fft_calculate-measured}
use rtos_hm_board.Fft.Dft.{dft, ring_stage, ring_transform, ring_transform-dft}
use rtos_hm_board.Fft.Exact.{
  ExactOps, ExactTable, complex_ring, angle, pow-half_turn, stage_of-ring_stage,
}

module _ {bus : SpiBus} {f : FloatOps} (e : ExactOps f) (table : ExactTable bus e) where
  -- The transform of 512 points for the first angle of the table.
  abbrev pub fourier : (ℕ → Complex f) → ℕ → Complex f
  fourier = dft ⦃s = complex_ring e⦄ (angle bus f 1) 512

  same_stage :
      (n angf : ℕ) (p : ℕ → Complex f)
      → 0 < n
      → n * angf ≡ 256
      → stage_of bus f n angf p ≡ ring_stage ⦃s = complex_ring e⦄ (angle bus f 1) n angf p
  same_stage n angf p positive whole =
      fun_ext (λ j. stage_of-ring_stage e table n angf p j positive whole)

  transform-ring_transform :
      (p : ℕ → Complex f)
      → transform bus f p
        ≡ ring_transform ⦃s = complex_ring e⦄ (angle bus f 1) (pow-half_turn e table) p
  transform-ring_transform p = rw (
    same_stage 1 256 p (omega arith) (omega arith),
    same_stage 2 128 _ (omega arith) (omega arith),
    same_stage 4 64 _ (omega arith) (omega arith),
    same_stage 8 32 _ (omega arith) (omega arith),
    same_stage 16 16 _ (omega arith) (omega arith),
    same_stage 32 8 _ (omega arith) (omega arith),
    same_stage 64 4 _ (omega arith) (omega arith),
    same_stage 128 2 _ (omega arith) (omega arith),
    same_stage 256 1 _ (omega arith) (omega arith),
  )

  transform-fourier :
      (x : ℕ → Complex f) (j : ℕ)
      → j < 512
      → transform bus f (λ i. x (reverse_bits 9 i)) j ≡ fourier x j
  transform-fourier x j lt =
      ap (λ (p : ℕ → Complex f). p j) (transform-ring_transform (λ i. x (reverse_bits 9 i)))
      ∙ ring_transform-dft ⦃s = complex_ring e⦄ (angle bus f 1) (pow-half_turn e table) x j lt

-- The expressions of the points for a list of readings, which only depend on the readings.
abbrev pub point_expressions : SpiBus → List Readings → ℕ → Complex expressions
point_expressions bus rs = transform bus expressions (measured expressions rs)

-- The points whose Fourier transform is meant: every second reading in the order of time, averaged
-- and less the mean of all.
abbrev pub in_time : (g : FloatOps) → List Readings → ℕ → Complex g
in_time g rs k =
    point_of g (mean_word (running_sum 0 rs)) (adca_read_ch0 (get_or rs (k * 2) silence))

module _ {bus : SpiBus} {f : FloatOps} (laws : FloatLaws f) (chip : SerialMemory bus)
    (room : mem_signal_offset + 2 ≤ chip.size) {g : FloatOps} (e : ExactOps g)
    (table : ExactTable bus e) where
  -- When a measurement of 2048 samples that began at the first place with its sum at 0 is complete:
  -- `decimate_and_store` and `FFT_calculate` end, and then the memory is at rest and holds, for each
  -- of the 512 points, the value of one fixed expression in the arithmetic of the board's floats,
  -- whatever that is, and no cell outside of the points has changed. The same expressions, evaluated
  -- in an exact arithmetic of one's choice, a commutative ring in which the constants of the table
  -- stand for the exact angles that they round, are the discrete Fourier transform of every second
  -- reading, averaged and less the mean of all, in the order of time. Nothing is said of the error
  -- that the floats make.
  pub fft_calculate-measured_fourier :
      {Pin : Type 0} (toggle : Pin → Pin) (start s : Sampler bus Pin) (rs : List Readings) (j : ℕ)
      → length rs ≡ mem_signal_length
      → start.count ≡ 0
      → start.offset ≡ 0
      → IsComplete chip toggle start rs s
      → j < 512
      → (s' : Spi bus) × (fft_calculate bus f (decimate_and_store bus f s.spi) ≡ some s')
        × Holds chip laws
            (contents chip s.spi)
            (λ i. complex_value f (point_expressions bus rs i))
            s'
        × (complex_value g (point_expressions bus rs j) ≡ fourier e table (in_time g rs) j)
  fft_calculate-measured_fourier toggle start s rs j full count_lem offset_lem done lt =
      let (s', ends, holds) =
        fft_calculate-measured chip laws room toggle start s rs full count_lem offset_lem done in
      (
        s',
        ends,
        record {
          ready = holds.ready;
          points = λ i small.
              holds.points i small ∙ sym (transform-value bus f (measured expressions rs) i);
          others = holds.others;
        },
        transform-value bus g (measured expressions rs) j
            ∙ transform-fourier e table (in_time g rs) j lt,
      )
