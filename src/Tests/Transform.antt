-- ===== src/Tests/Transform.antt =====
-- A measurement and its transform on concrete readings.
use rtos_hm_board.Prelude.{
  ◌≡◌, ◌-◌, ◌^◌, refl, arith, ap, replicate, take, length-replicate, suc, [], ◌∷◌, ◌++◌, inl, Bool,
  true, false, not, some, List,
}
use rtos_hm_board.SpiMemory.{Spi}
use rtos_hm_board.SpiMemory.Laws.{contents}
use rtos_hm_board.Config.{mem_signal_length}
use rtos_hm_board.Sampling.{Readings, Sampler, samples}
use rtos_hm_board.Sampling.Run.{IsComplete, IsSampling, samples-IsComplete}
use rtos_hm_board.Fft.{decimate_and_store, fft_calculate}
use rtos_hm_board.Fft.Points.{Holds}
use rtos_hm_board.Fft.Decimate.{decimated, decimate_and_store_lem}
use rtos_hm_board.Fft.Transform.{transform}
use rtos_hm_board.Fft.Measured.{measured, fft_calculate-measured}
use rtos_hm_board.MainTask.{wait_sampling, process_all}
use rtos_hm_board.MainTask.State.{done, overflow, waiting}
use rtos_hm_board.MainTask.Waiting.{wait_sampling-ends, process_all_overflows, process_all_stays}
use rtos_hm_board.Tests.Chip.{bus, chip}
use rtos_hm_board.Tests.Floats.{floats, floats_laws}
use rtos_hm_board.Tests.Memory.{spi, spi-IsReady}
use rtos_hm_board.Tests.Tasks.{board, packet}

decimate_and_store_lem_example :
    Holds chip floats_laws
      (contents chip spi)
      (decimated floats (contents chip spi))
      (decimate_and_store bus floats spi)
decimate_and_store_lem_example =
    decimate_and_store_lem chip floats_laws (omega arith) spi spi-IsReady

-- Conversions to -3, 10, 2047 and -2048.
abbrev pub readings : Readings
readings = record { first = 2 ^ 16 - 3; second = 10; third = 2047; fourth = 2 ^ 16 - 2048 }

-- The start of a measurement, and its end.
abbrev pub start : Sampler bus Bool
start = record { sampling = true; count = 0; offset = 0; spi = spi; power = false }

start-IsSampling : IsSampling chip not start
start-IsSampling = record {
  running = refl;
  count_in = omega arith;
  ready = spi-IsReady;
  room = omega arith;
}

abbrev pub all_readings : List Readings
all_readings = readings ∷ replicate 2047 readings

pub complete : IsComplete chip not start all_readings (samples bus not all_readings start)
complete =
    samples-IsComplete chip not readings (replicate 2047 readings) start start-IsSampling
      (ap suc (length-replicate 2047 readings))

fft_calculate-measured_example :
    (s' : Spi bus) × (fft_calculate bus floats
        (decimate_and_store bus floats (samples bus not all_readings start).spi)
      ≡ some s')
    × Holds chip floats_laws
        (contents chip (samples bus not all_readings start).spi)
        (transform bus floats (measured floats all_readings))
        s'
fft_calculate-measured_example =
    fft_calculate-measured chip floats_laws (omega arith) not start
      (samples bus not all_readings start) all_readings (ap suc (length-replicate 2047 readings))
      refl refl complete

-- The loop reads the flag once, and the samples come in the delay.
wait_sampling-ends_example :
    (s' : Sampler bus Bool) × (wait_sampling {bus = bus} floats not
        (λ log. true)
        false
        (readings ∷ [])
        (samples bus not (replicate 2500 readings) start)
      ≡ done s')
    × IsComplete chip not start
        (take (mem_signal_length - start.count) (replicate 2500 readings ++ (readings ∷ [])))
        s'
wait_sampling-ends_example =
    wait_sampling-ends chip not floats (λ log. true) false (replicate 2500 readings) (readings ∷ [])
      start start-IsSampling (inl (omega (arith, length-replicate 2500 readings)))

process_all_overflows_example :
    process_all floats not
      (λ log. true)
      (record { during = replicate 2500 readings; after = []; rereads = false })
      packet
      board
    ≡ overflow
process_all_overflows_example =
    process_all_overflows chip not floats (λ log. true)
      (record { during = replicate 2500 readings; after = []; rereads = false }) packet board
      spi-IsReady (omega arith) (omega (arith, length-replicate 2500 readings))

process_all_stays_example :
    process_all floats not
      (λ log. true)
      (record { during = replicate 20 readings; after = replicate 2500 readings; rereads = false })
      packet
      board
    ≡ waiting
process_all_stays_example =
    process_all_stays chip not floats (λ log. true)
      (record { during = replicate 20 readings; after = replicate 2500 readings; rereads = false })
      packet board spi-IsReady (omega arith) (omega (arith, length-replicate 20 readings)) refl
