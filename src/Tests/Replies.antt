-- ===== src/Tests/Replies.antt =====
-- The replies of the main task's handlers on concrete boards.
use rtos_hm_board.Prelude.{
  ◌≡◌, refl, arith, ap, suc, [], ◌∷◌, ◌++◌, Bool, not, get_or, length-replicate, inl, inr, ◌-◌, ◌%◌,
  ◌^◌, some,
}
use rtos_hm_board.SpiMemory.RoundTrip.{complex_at}
use rtos_hm_board.SpiMemory.Laws.{contents, IsReady}
use rtos_hm_board.SpiMemory.Cells.{word_at}
use rtos_hm_board.Sampling.{samples, adca_read_ch0}
use rtos_hm_board.Sampling.Signal.{silence}
use rtos_hm_board.Fft.Points.{Holds, point_address}
use rtos_hm_board.SpiMemory.{Spi}
use rtos_hm_board.Fft.{decimate_and_store, fft_calculate}
use rtos_hm_board.Fft.Measured
use rtos_hm_board.Fft.Transform.{transform}
use rtos_hm_board.MainTask.{send_signal, send_fft, house_keeping}
use rtos_hm_board.MainTask.State.{Board, done, reply, clock_off, clock_on, delay_ms, on_spi}
use rtos_hm_board.MainTask.Messages.{temperature_text, house_keeping_text, test_point}
use rtos_hm_board.MainTask.Temperature.{plain_text, below_zero_text, temperature_text_lem}
use rtos_hm_board.MainTask.HouseKeeping.{house_keeping_marks}
use rtos_hm_board.Text.{codes, decimal}
use rtos_hm_board.MainTask.Signal.{signal_actions, send_signal-measured}
use rtos_hm_board.MainTask.Measured.{send_fft-measured}
use rtos_hm_board.MainTask.Spectrum.{spectrum_actions, send_fft-points}
use rtos_hm_board.Tests.Chip.{bus, chip}
use rtos_hm_board.Tests.Floats.{floats, floats_laws}
use rtos_hm_board.Tests.Memory.{spi, spi-IsReady}
use rtos_hm_board.Tests.Tasks.{board, packet, every_time}
use rtos_hm_board.Tests.Transform.{start, readings, all_readings, complete}

abbrev measured : Board bus Bool
measured = record board { sampler = samples bus not all_readings start }

send_signal-measured_example :
    (b' : Board bus Bool) × (send_signal floats not every_time packet measured ≡ done b')
    × (b'.log ≡ [] ++ signal_actions packet (λ i. adca_read_ch0 (get_or all_readings i silence)))
    × (contents chip b'.sampler.spi ≡ contents chip measured.sampler.spi)
send_signal-measured_example =
    send_signal-measured chip (omega arith) floats not every_time packet start all_readings measured
      (ap suc (length-replicate 2047 readings)) refl complete

send_fft-points_example :
    (b' : Board bus Bool) × (send_fft floats not every_time packet board ≡ done b')
    × (b'.log
        ≡ []
          ++ spectrum_actions floats packet
              (λ j. complex_at floats (contents chip spi) (point_address j)))
    × Holds chip floats_laws
        (contents chip spi)
        (λ j. complex_at floats (contents chip spi) (point_address j))
        b'.sampler.spi
send_fft-points_example =
    send_fft-points chip (omega arith) floats_laws not every_time packet (contents chip spi)
      (λ j. complex_at floats (contents chip spi) (point_address j)) board
      (record { ready = spi-IsReady; points = λ j lt. refl; others = λ b out. refl })

send_fft-measured_example :
    (s' : Spi bus) × (fft_calculate bus floats (decimate_and_store bus floats measured.sampler.spi)
      ≡ some s')
    × (b' : Board bus Bool) × (send_fft floats not every_time packet (on_spi s' measured) ≡ done b')
    × (b'.log
        ≡ []
          ++ spectrum_actions floats packet
              (transform bus floats (Measured.measured floats all_readings)))
send_fft-measured_example =
    send_fft-measured chip floats_laws (omega arith) not every_time packet measured start
      all_readings (ap suc (length-replicate 2047 readings)) refl refl complete

-- 5 degrees and 6 128ths, and as much below zero.
temperature_text_lem_example :
    (temperature_text 646 ≡ plain_text 646)
    × (temperature_text ((2 ^ 16 - 646) % 2 ^ 16) ≡ below_zero_text 646)
temperature_text_lem_example = temperature_text_lem 646 (omega arith)

five_four : plain_text 646 ≡ codes "5.4\n"
unfolding decimal
five_four = refl

house_keeping_marks_example :
    (b' : Board bus Bool) × (house_keeping floats not every_time packet board ≡ done b')
    × (b'.log
        ≡ []
          ++ (clock_off
              ∷ reply 10 40 19 (house_keeping_text board.timers) 50
              ∷ delay_ms 300
              ∷ clock_on
              ∷ []))
    × IsReady chip b'.sampler.spi
    × (complex_at floats (contents chip b'.sampler.spi) 145 ≡ test_point floats)
    × (word_at (contents chip b'.sampler.spi) 0x789 ≡ 7442)
    × (contents chip b'.sampler.spi 200 ≡ contents chip board.sampler.spi 200)
house_keeping_marks_example =
    house_keeping_marks chip floats_laws not every_time (omega arith) packet board 200 spi-IsReady
      (inr (inl (omega arith, omega arith)))
