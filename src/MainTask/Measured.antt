-- ===== src/MainTask/Measured.antt =====
-- A measurement, its transform and the spectrum that `sendFFT` of mainTask.c sends of it.
use rtos_hm_board.Prelude.{◌+◌, ◌≤◌, ◌≡◌, List, ◌++◌, Bool, length, some}
use rtos_hm_board.Config.{mem_signal_length, mem_signal_offset}
use rtos_hm_board.SpiMemory.{Spi, FloatOps, FloatLaws}
use rtos_hm_board.SpiMemory.Bus.{SpiBus, SerialMemory}
use rtos_hm_board.SpiMemory.Laws.{contents}
use rtos_hm_board.Sampling.{Readings, Sampler}
use rtos_hm_board.Sampling.Run.{IsComplete}
use rtos_hm_board.Fft.{decimate_and_store, fft_calculate}
use rtos_hm_board.Fft.Measured.{measured, fft_calculate-measured}
use rtos_hm_board.Fft.Transform.{transform}
use rtos_hm_board.CspTask.{Packet}
use rtos_hm_board.MainTask.{send_fft}
use rtos_hm_board.MainTask.State.{Board, Action, done, on_spi}
use rtos_hm_board.MainTask.Spectrum.{spectrum_actions, send_fft-points}

module _ {bus : SpiBus} {f : FloatOps} (chip : SerialMemory bus) (laws : FloatLaws f)
    (room : mem_signal_offset + 2 ≤ chip.size) {Pin : Type 0} (toggle : Pin → Pin)
    (accepted : List Action → Bool) where
  -- When a measurement of 2048 samples that began at the first place with its sum at 0 is complete on
  -- a board: `decimate_and_store` and `FFT_calculate` end, and a later `sendFFT` ends and has sent,
  -- after its title, one line for each of the first 256 points, in order, of the transform of the
  -- readings, each averaged, every second one taken in reversed order, and less their mean, with the
  -- RTOS timer stopped before and started after.
  pub send_fft-measured :
      (p : Packet) (b : Board bus Pin) (start : Sampler bus Pin) (rs : List Readings)
      → length rs ≡ mem_signal_length
      → start.count ≡ 0
      → start.offset ≡ 0
      → IsComplete chip toggle start rs b.sampler
      → (s' : Spi bus) × (fft_calculate bus f (decimate_and_store bus f b.sampler.spi) ≡ some s')
        × (b' : Board bus Pin) × (send_fft f toggle accepted p (on_spi s' b) ≡ done b')
        × (b'.log ≡ b.log ++ spectrum_actions f p (transform bus f (measured f rs)))
  send_fft-measured p b start rs full count_lem offset_lem complete =
      let (s', ends, holds) =
        fft_calculate-measured chip laws room toggle start b.sampler rs full count_lem offset_lem
          complete in
      let (b', sends, log_lem, kept) =
        send_fft-points chip room laws toggle accepted p (contents chip b.sampler.spi)
          (transform bus f (measured f rs)) (on_spi s' b) holds in
      (s', ends, b', sends, log_lem)
