-- ===== src/Fft/Measured.antt =====
-- From the readings of the converter (system.c) to their transform in the memory (fft_memory.c).
use rtos_hm_board.Prelude.{
  ℕ, ◌+◌, ◌*◌, ◌≤◌, ◌<◌, ◌≡◌, ap, ap₂, ◌∙◌, arith, List, length, get_or, some,
}
use rtos_hm_board.Config.{mem_signal_length, mem_signal_offset, no_points}
use rtos_hm_board.SpiMemory.{Spi, FloatOps, FloatLaws, Complex}
use rtos_hm_board.SpiMemory.Bus.{SpiBus, SerialMemory}
use rtos_hm_board.SpiMemory.Cells.{word_at}
use rtos_hm_board.SpiMemory.Laws.{contents}
use rtos_hm_board.Sampling.{Readings, adca_read_ch0, Sampler}
use rtos_hm_board.Sampling.Run.{running_sum, mean_word, IsComplete}
use rtos_hm_board.Sampling.Signal.{silence, offset_word_lem, sample_word_lem}
use rtos_hm_board.Fft.{decimate_and_store, fft_calculate}
use rtos_hm_board.Fft.Reversal.{reverse_bits, bitrev-IsReversal}
use rtos_hm_board.Fft.Points.{Holds}
use rtos_hm_board.Fft.Decimate.{point_of, decimated, sample_address, decimate_and_store_lem}
use rtos_hm_board.Fft.Transform.{transform}
use rtos_hm_board.Fft.Refine.{fft_calculate-transform}

-- The points of a list of readings: every second sample, in reversed order, less the mean.
abbrev pub measured : (f : FloatOps) → List Readings → ℕ → Complex f
measured f rs i =
    point_of f (mean_word (running_sum 0 rs))
      (adca_read_ch0 (get_or rs (reverse_bits 9 i * 2) silence))

module _ {bus : SpiBus} (chip : SerialMemory bus) {f : FloatOps} (laws : FloatLaws f)
    (room : mem_signal_offset + 2 ≤ chip.size) {Pin : Type 0} (toggle : Pin → Pin) where
  decimated-measured :
      (start s : Sampler bus Pin) (rs : List Readings)
      → length rs ≡ mem_signal_length
      → start.count ≡ 0
      → start.offset ≡ 0
      → IsComplete chip toggle start rs s
      → (i : ℕ) → i < no_points
      → decimated f (contents chip s.spi) i ≡ measured f rs i
  decimated-measured start s rs full count_lem offset_lem done i lt =
      let k = reverse_bits 9 i * 2 in
      let (table, small, back) = bitrev-IsReversal i lt in
      let m = contents chip s.spi in
      let place : sample_address i ≡ k * 2 = omega arith in
      let offset_word =
        offset_word_lem chip toggle start s rs full count_lem done
        ∙ ap (λ o. mean_word (running_sum o rs)) offset_lem in
      let sample_word =
        ap (word_at m) place
        ∙ sample_word_lem chip toggle start s rs full count_lem done k (omega arith) in
      ap₂ (point_of f) offset_word sample_word

  -- When a measurement of 2048 samples that began at the first place with its sum at 0 is complete:
  -- `decimate_and_store` and `FFT_calculate` end, and then the memory is at rest and holds the
  -- transform of the readings, each averaged, every second one taken in reversed order, and less
  -- their mean. No cell outside of the points has changed since the measurement.
  pub fft_calculate-measured :
      (start s : Sampler bus Pin) (rs : List Readings)
      → length rs ≡ mem_signal_length
      → start.count ≡ 0
      → start.offset ≡ 0
      → IsComplete chip toggle start rs s
      → (s' : Spi bus) × (fft_calculate bus f (decimate_and_store bus f s.spi) ≡ some s')
        × Holds chip laws (contents chip s.spi) (transform bus f (measured f rs)) s'
  fft_calculate-measured start s rs full count_lem offset_lem done =
      let stored = decimate_and_store_lem chip laws room s.spi done.ready in
      fft_calculate-transform chip laws room (measured f rs) (decimate_and_store bus f s.spi)
        (record {
          ready = stored.ready;
          points = λ j lt.
              stored.points j lt
              ∙ decimated-measured start s rs full count_lem offset_lem done j lt;
          others = stored.others;
        })
