-- ===== src/Sampling.antt =====
-- system.c: the conversion of the analog input, and the overflow interrupt of timer TCD0, which
-- fills the signal area of the external memory.
pub mod Average
pub mod Run
pub mod Mean
pub mod Signal
use rtos_hm_board.Prelude.{
  ℕ, zero, suc, ◌+◌, ◌*◌, ◌%◌, ◌^◌, ◌==◌, if◌then◌else◌, Bool, true, false, List, [], ◌∷◌,
}
use rtos_hm_board.Prelude.Signed.{widen, shift_right16, divide32}
use rtos_hm_board.Config.{mem_signal_begin, mem_signal_offset, mem_signal_length}
use rtos_hm_board.SpiMemory.{Spi, spi_mem_write_word}
use rtos_hm_board.SpiMemory.Bus.{SpiBus}

-- What the result register of the converter holds after each of the four conversions.
pub record Readings : Type 0 where
  pub first : ℕ
  pub second : ℕ
  pub third : ℕ
  pub fourth : ℕ

abbrev pub add16 : ℕ → ℕ → ℕ
add16 a b = (a + b) % 2 ^ 16

-- Four conversions are added in an `int`, and the sum is shifted right by 2.
unfoldable pub adca_read_ch0 : Readings → ℕ
adca_read_ch0 r =
    shift_right16 (add16 (add16 (add16 (add16 0 r.first) r.second) r.third) r.fourth) 2

-- The globals of the interrupt: `sampling`, `count_TCD0` (`unsigned int`), `signal_offset`
-- (`long`), the memory, and the pin of the power switch, which the vendored `ioport` drives.
pub record Sampler (bus : SpiBus) (Pin : Type 0) : Type 0 where
  pub sampling : Bool
  pub count : ℕ
  pub offset : ℕ
  pub spi : Spi bus
  pub power : Pin

module _ (bus : SpiBus) {Pin : Type 0} (toggle : Pin → Pin) where
  -- ISR(TCD0_OVF_vect)
  unfoldable pub sample : Readings → Sampler bus Pin → Sampler bus Pin
  sample r s =
      let adc_value = adca_read_ch0 r in
      let offset = (s.offset + widen adc_value) % 2 ^ 32 in
      let written =
        spi_mem_write_word bus ((s.count * 2 + mem_signal_begin) % 2 ^ 16) adc_value s.spi in
      let count = (s.count + 1) % 2 ^ 16 in
      let finished : Sampler bus Pin = record {
        sampling = false;
        count = 0;
        offset = 0;
        spi =
            spi_mem_write_word bus mem_signal_offset (divide32 offset mem_signal_length % 2 ^ 16)
              written;
        power = toggle s.power;
      } in
      if s.sampling
      then (if count == mem_signal_length
          then finished
          else record s { count = count; offset = offset; spi = written })
      else s

  -- One interrupt for each entry.
  unfoldable pub samples : List Readings → Sampler bus Pin → Sampler bus Pin
  samples [] s = s
  samples (r ∷ rs) s = samples rs (sample r s)
