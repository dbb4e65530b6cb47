-- ===== src/Fft/Stages.antt =====
-- The stages of `FFT_calculate` of fft_memory.c.
use rtos_hm_board.Prelude.{ℕ, ◌+◌, ◌*◌, ◌%◌, ◌^◌, ◌≡◌, refl, some}
use rtos_hm_board.Config.{mem_fft_begin}
use rtos_hm_board.SpiMemory.{Spi, FloatOps}
use rtos_hm_board.SpiMemory.Bus.{SpiBus}
use rtos_hm_board.Fft.{distances, stages, fft_calculate}

module _ (bus : SpiBus) (f : FloatOps) where
  -- One stage: all distances below `n`, with `angf` groups each.
  abbrev pub stage : ℕ → ℕ → Spi bus → Spi bus
  stage n angf s =
      (distances bus f n n angf 0 (record {
        pointer_a = mem_fft_begin;
        pointer_b = (mem_fft_begin + n * 8) % 2 ^ 16;
        spi = s;
      })).spi

  -- `FFT_calculate` ends: it does nine stages, with distances that double from 1 to 256 and numbers
  -- of groups that halve from 256 to 1.
  pub fft_calculate-stages :
      (s : Spi bus)
      → fft_calculate bus f s
        ≡ some (
            stage 256 1 (
              stage 128 2 (
                stage 64 4 (
                  stage 32 8
                    (stage 16 16 (stage 8 32 (stage 4 64 (stage 2 128 (stage 1 256 s)))))))))
  unfolding fft_calculate stages
  fft_calculate-stages s = refl
