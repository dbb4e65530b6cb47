-- ===== src/Fft.antt =====
-- fft_memory.c: the transform of the sampled signal, on points in the external memory.
pub mod Sincos
pub mod Angles
pub mod Bitrev
pub mod Reversal
pub mod Stages
pub mod Points
pub mod Decimate
pub mod Transform
pub mod Refine
pub mod Measured
pub mod Exact
pub mod Dft
pub mod Expressions
pub mod Fourier
use rtos_hm_board.Prelude.{
  ℕ, zero, suc, ◌+◌, ◌-◌, ◌*◌, ◌/◌, ◌%◌, ◌^◌, ltb, if◌then◌else◌, List, [], ◌∷◌, ◌++◌, get_or,
  Option, none, some, true, false,
}
use rtos_hm_board.Prelude.Signed.{ℤ, pos}
use rtos_hm_board.Config.{
  mem_signal_begin, mem_signal_offset, mem_signal_length, mem_fft_begin, no_points,
}
use rtos_hm_board.SpiMemory.{
  Spi, FloatOps, Complex, spi_mem_read_word, spi_mem_read_complex, spi_mem_write_complex,
}
use rtos_hm_board.SpiMemory.Bus.{SpiBus}
use Sincos.{sincos_first, sincos_second}
use Bitrev.{bitrev}

abbrev pub decimation_factor : ℕ
decimation_factor = 2

module _ (bus : SpiBus) (f : FloatOps) where
  -- The real part of point `i`: the signal at the reversed position, less its offset. The
  -- subtraction is that of an `unsigned int`, and its result is converted as an `int`.
  unfoldable pub signal_point : ℕ → ℕ → Spi bus → Complex f × Spi bus
  signal_point offset i s =
      let position = get_or bitrev i 0 * decimation_factor in
      let (word, s') = spi_mem_read_word bus (position * 2 + mem_signal_begin) s in
      if ltb position mem_signal_length
      then (record { real = f.of_int ((word + 2 ^ 16 - offset) % 2 ^ 16); imag = f.of_int 0 }, s')
      else (record { real = f.of_int 0; imag = f.of_int 0 }, s)

  -- The loop of `decimate_and_store`, with `n` rounds left at index `i`.
  unfoldable pub store_points : ℕ → ℕ → ℕ → Spi bus → Spi bus
  store_points offset zero i s = s
  store_points offset (suc n) i s =
      let (point, s') = signal_point offset i s in
      store_points offset n (i + 1)
        (spi_mem_write_complex bus f ((i * 8 + mem_fft_begin) % 2 ^ 16) point s')

  unfoldable pub decimate_and_store : Spi bus → Spi bus
  decimate_and_store s =
      let (offset, s') = spi_mem_read_word bus mem_signal_offset s in
      store_points offset no_points 0 s'

  -- `pgm_read_float(&sincos[i])`
  unfoldable pub sincos : ℕ → f.Float
  sincos i = f.of_micro (get_or (sincos_first ++ sincos_second) i (pos 0))

  -- The body of the innermost loop on the two points.
  unfoldable pub butterfly : f.Float → f.Float → Complex f → Complex f → Complex f × Complex f
  butterfly dsin dcos a b =
      let c_real = f.sub (f.mul b.real dcos) (f.mul b.imag dsin) in
      let c_imag = f.add (f.mul b.real dsin) (f.mul b.imag dcos) in
      (
        record { real = f.add a.real c_real; imag = f.add a.imag c_imag },
        record { real = f.sub a.real c_real; imag = f.sub a.imag c_imag },
      )

  -- The two pointers, which are `unsigned long`, and the memory.
  pub record Cursor : Type 0 where
    pub pointer_a : ℕ
    pub pointer_b : ℕ
    pub spi : Spi bus

  -- The loop over the groups, with `rounds` left.
  unfoldable pub groups : ℕ → ℕ → f.Float → f.Float → Cursor → Cursor
  groups zero n dsin dcos c = c
  groups (suc rounds) n dsin dcos c =
      let (a, s1) = spi_mem_read_complex bus f c.pointer_a c.spi in
      let (b, s2) = spi_mem_read_complex bus f c.pointer_b s1 in
      let (a', b') = butterfly dsin dcos a b in
      let s3 = spi_mem_write_complex bus f c.pointer_a a' s2 in
      let s4 = spi_mem_write_complex bus f c.pointer_b b' s3 in
      groups rounds n dsin dcos (record {
        pointer_a = (c.pointer_a + 16 * n % 2 ^ 16) % 2 ^ 32;
        pointer_b = (c.pointer_b + 16 * n % 2 ^ 16) % 2 ^ 32;
        spi = s4;
      })

  abbrev pub back : ℕ → ℕ
  back p = (p + 2 ^ 32 - (no_points - 1) * 8) % 2 ^ 32

  -- The loop over the distances, with `rounds` left; `fnk` is the place in the table.
  unfoldable pub distances : ℕ → ℕ → ℕ → ℕ → Cursor → Cursor
  distances zero n angf fnk c = c
  distances (suc rounds) n angf fnk c =
      let dsin = sincos fnk in
      let dcos = sincos (fnk + 1) in
      let c' = groups angf n dsin dcos c in
      distances rounds n angf ((fnk + 2 + (angf - 1) * 2) % 2 ^ 16)
        (record c' { pointer_a = back c'.pointer_a; pointer_b = back c'.pointer_b })

  -- The loop over the stages: `n` doubles and `angf` halves. `none` means that the fuel ran out.
  unfoldable pub stages : ℕ → ℕ → ℕ → Spi bus → Option (Spi bus)
  stages zero n angf s = none
  stages (suc fuel) n angf s =
      let start : Cursor = record {
        pointer_a = mem_fft_begin;
        pointer_b = (mem_fft_begin + n * 8) % 2 ^ 16;
        spi = s;
      } in
      let rest = stages fuel (n * 2 % 2 ^ 16) (angf / 2) (distances n n angf 0 start).spi in
      if ltb n no_points then rest else some s

  -- `FFT_calculate`. Nine stages and the test that ends the loop take a fuel of ten.
  unfoldable pub fft_calculate : Spi bus → Option (Spi bus)
  fft_calculate s = stages 10 1 (no_points / 2) s
