-- ===== src/Tests/Signal.antt =====
-- The clock, the sampling interrupt and the printed numbers on concrete inputs.
use rtos_hm_board.Prelude.{
  ◌-◌, ◌/◌, ◌%◌, ◌^◌, ◌<◌, ◌+◌, ◌≡◌, refl, arith, [], ◌∷◌, replicate, Bool, true, false, not,
  length-replicate, get_or,
}
use rtos_hm_board.Prelude.Signed.{int16, ◌+ℤ◌, ◌≤ℤ◌, pos, quotient, pos_part}
use rtos_hm_board.Clock.{cleared, ticks}
use rtos_hm_board.Clock.Laws.{hour, ticks-cleared}
use rtos_hm_board.Sampling.{Readings, adca_read_ch0, Sampler, samples}
use rtos_hm_board.Sampling.Average.{total, adca_read_ch0-IsFloor}
use rtos_hm_board.Sampling.Run.{running_sum, mean_word, IsComplete, samples-IsComplete}
use rtos_hm_board.Sampling.Mean.{sum_of, mean-running_sum}
use rtos_hm_board.Fft.Angles.{off_circle, IsNear, sine, cosine, sincos-IsTurning}
use rtos_hm_board.Fft.Bitrev.{bitrev}
use rtos_hm_board.Fft.Reversal.{reverse_bits, bitrev-IsReversal}
use rtos_hm_board.Tests.Chip.{bus, chip}
use rtos_hm_board.Tests.Memory.{spi, spi-IsReady}

ticks-cleared_example :
    ((ticks 2500 cleared).miliseconds ≡ 2500 % 1001)
    × ((ticks 2500 cleared).seconds ≡ 2500 / 1001 % 3601)
    × ((ticks 2500 cleared).hours ≡ 2500 / hour)
ticks-cleared_example = ticks-cleared 2500 (omega arith)

-- Conversions to -3, 10, 2047 and -2048.
abbrev readings : Readings
readings = record { first = 2 ^ 16 - 3; second = 10; third = 2047; fourth = 2 ^ 16 - 2048 }

adca_read_ch0-IsFloor_example :
    (int16 (adca_read_ch0 readings)
        +ℤ int16 (adca_read_ch0 readings)
        +ℤ int16 (adca_read_ch0 readings)
        +ℤ int16 (adca_read_ch0 readings)
      ≤ℤ total readings)
    × (total readings
        ≤ℤ int16 (adca_read_ch0 readings)
          +ℤ int16 (adca_read_ch0 readings)
          +ℤ int16 (adca_read_ch0 readings)
          +ℤ int16 (adca_read_ch0 readings)
          +ℤ pos 3)
adca_read_ch0-IsFloor_example = adca_read_ch0-IsFloor readings (record {
  first_in = (omega arith, (omega arith, omega arith));
  second_in = (omega arith, (omega arith, omega arith));
  third_in = (omega arith, (omega arith, omega arith));
  fourth_in = (omega arith, (omega arith, omega arith));
})

-- Two samples before the end of a measurement.
abbrev sampler : Sampler bus Bool
sampler = record { sampling = true; count = 2046; offset = 100; spi = spi; power = false }

samples-IsComplete_example :
    IsComplete chip not sampler
      (readings ∷ readings ∷ [])
      (samples bus not (readings ∷ readings ∷ []) sampler)
samples-IsComplete_example =
    samples-IsComplete chip not readings (readings ∷ []) sampler
      (record { running = refl; count_in = omega arith; ready = spi-IsReady; room = omega arith })
      refl

mean-running_sum_example :
    int16 (mean_word (running_sum 0 (replicate 2048 readings)))
    ≡ quotient (sum_of (replicate 2048 readings)) 2048
mean-running_sum_example =
    mean-running_sum (replicate 2048 readings) (length-replicate 2048 readings)

bitrev-IsReversal_example :
    (get_or bitrev 6 0 ≡ reverse_bits 9 6)
    × (get_or bitrev 6 0 < 512)
    × (get_or bitrev (get_or bitrev 6 0) 0 ≡ 6)
bitrev-IsReversal_example = bitrev-IsReversal 6 (omega arith)

sincos-IsTurning_example :
    (off_circle 256 < 1500000)
    × IsNear 255 1
    × IsNear 128 128
    × (pos_part (sine 127) < pos_part (sine (127 + 1)))
    × (sine 0 ≡ pos 0)
    × (sine 128 ≡ pos 1000000)
    × (cosine 128 ≡ pos 0)
sincos-IsTurning_example =
    sincos-IsTurning 256 255 128 127 (omega arith) (omega arith) (omega arith) (omega arith)
