-- ===== src/Tests/Memory.antt =====
-- The memory's functions on a concrete chip.
use rtos_hm_board.Prelude.{◌≡◌, refl, arith, replicate, inr}
use rtos_hm_board.SpiMemory.{
  Spi, Complex, spi_mem_write_word, spi_mem_read_word, spi_mem_write_complex, spi_mem_read_complex,
}
use rtos_hm_board.SpiMemory.Bus.{idle}
use rtos_hm_board.SpiMemory.Laws.{IsReady}
use rtos_hm_board.SpiMemory.RoundTrip.{read_word-write_word, read_complex-write_complex}
use rtos_hm_board.Tests.Chip.{bus, chip}
use rtos_hm_board.Tests.Floats.{floats, floats_laws, word}

-- A chip full of the byte 7, at rest.
abbrev pub spi : Spi bus
spi = record { buffer = replicate 32 0; device = record { session = idle; memory = λ a. 7 } }

pub spi-IsReady : IsReady chip spi
spi-IsReady = record { at_rest = refl; buffer_size = refl }

read_word-write_word_example :
    ((spi_mem_read_word bus 100 (spi_mem_write_word bus 100 0x1234 spi)).0 ≡ 0x1234)
    × ((spi_mem_read_word bus 102 (spi_mem_write_word bus 100 0x1234 spi)).0
        ≡ (spi_mem_read_word bus 102 spi).0)
read_word-write_word_example =
    read_word-write_word chip 100 spi-IsReady 0x1234 102 (omega arith) (omega arith, omega arith)
      (omega arith, omega arith) (inr (omega arith))

abbrev point : Complex floats
point = record { real = word 1234567; imag = word 7654321 }

read_complex-write_complex_example :
    ((spi_mem_read_complex bus floats 100 (spi_mem_write_complex bus floats 100 point spi)).0
      ≡ point)
    × ((spi_mem_read_complex bus floats 108 (spi_mem_write_complex bus floats 100 point spi)).0
        ≡ (spi_mem_read_complex bus floats 108 spi).0)
read_complex-write_complex_example =
    read_complex-write_complex chip 100 spi-IsReady floats point 108 floats_laws
      (omega arith, omega arith) (omega arith, omega arith) (inr (omega arith))
