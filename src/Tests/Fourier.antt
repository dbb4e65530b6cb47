-- ===== src/Tests/Fourier.antt =====
-- The transform of a measurement in exact numbers.
use rtos_hm_board.Prelude.{◌≡◌, refl, arith, ap, suc, some, not, length-replicate}
use rtos_hm_board.SpiMemory.{Spi}
use rtos_hm_board.SpiMemory.Laws.{contents}
use rtos_hm_board.Sampling.{samples}
use rtos_hm_board.Fft.{decimate_and_store, fft_calculate}
use rtos_hm_board.Fft.Points.{Holds}
use rtos_hm_board.Fft.Expressions.{complex_value}
use rtos_hm_board.Tests.Floats.{floats, floats_laws}
use rtos_hm_board.Fft.Fourier.{fourier, point_expressions, in_time, fft_calculate-measured_fourier}
use rtos_hm_board.Tests.Chip.{bus, chip}
use rtos_hm_board.Tests.Residues.{residues, residues_exact, residues_table}
use rtos_hm_board.Tests.Transform.{readings, start, all_readings, complete}

fft_calculate-measured_fourier_example :
    (s' : Spi bus) × (fft_calculate bus floats
        (decimate_and_store bus floats (samples bus not all_readings start).spi)
      ≡ some s')
    × Holds chip floats_laws
        (contents chip (samples bus not all_readings start).spi)
        (λ i. complex_value floats (point_expressions bus all_readings i))
        s'
    × (complex_value residues (point_expressions bus all_readings 3)
        ≡ fourier residues_exact residues_table (in_time residues all_readings) 3)
fft_calculate-measured_fourier_example =
    fft_calculate-measured_fourier floats_laws chip (omega arith) residues_exact residues_table not
      start (samples bus not all_readings start) all_readings 3
      (ap suc (length-replicate 2047 readings)) refl refl complete (omega arith)
