-- ===== src/Fft/Decimate.antt =====
-- `decimate_and_store` of fft_memory.c against the signal in the memory.
use rtos_hm_board.Prelude.{
  ℕ, zero, suc, ◌+◌, ◌-◌, ◌*◌, ◌%◌, ◌^◌, ◌≤◌, ◌<◌, ltb, inl, ◌≡◌, refl, ap, ap₂, ◌∙◌, arith, get_or,
  true, lt→ltb,
}
use rtos_hm_board.Config.{
  mem_fft_begin, mem_signal_begin, mem_signal_length, mem_signal_offset, no_points,
}
use rtos_hm_board.SpiMemory.{Spi, FloatOps, FloatLaws, Complex, spi_mem_write_complex}
use rtos_hm_board.SpiMemory.Bus.{SpiBus, SerialMemory, Cells}
use rtos_hm_board.SpiMemory.Cells.{word_at}
use rtos_hm_board.SpiMemory.Laws.{IsReady, Kept, contents}
use rtos_hm_board.SpiMemory.Reads.{spi_mem_read_word_lem}
use rtos_hm_board.SpiMemory.RoundTrip.{complex_at}
use rtos_hm_board.Fft.{decimation_factor, signal_point, store_points, decimate_and_store}
use rtos_hm_board.Fft.Bitrev.{bitrev}
use rtos_hm_board.Fft.Reversal.{bitrev-IsReversal}
use rtos_hm_board.Fft.Points.{Holds, point_address, put_point, write_point}

-- Where the sample for point `i` stands.
abbrev pub sample_address : ℕ → ℕ
sample_address i = get_or bitrev i 0 * decimation_factor * 2 + mem_signal_begin

-- The point that `word`, less the offset, becomes.
abbrev pub point_of : (f : FloatOps) → ℕ → ℕ → Complex f
point_of f offset word = record {
  real = f.of_int ((word + 2 ^ 16 - offset) % 2 ^ 16);
  imag = f.of_int 0;
}

-- The points of the signal in a memory.
abbrev pub decimated : (f : FloatOps) → Cells → ℕ → Complex f
decimated f m i = point_of f (word_at m mem_signal_offset) (word_at m (sample_address i))

module _ {bus : SpiBus} (chip : SerialMemory bus) {f : FloatOps} (laws : FloatLaws f)
    (room : mem_signal_offset + 2 ≤ chip.size) where
  -- A read that changes no cell.
  Kept-Holds :
      {m : Cells} {p : ℕ → Complex f} {s s' : Spi bus}
      → Holds chip laws m p s
      → Kept chip s s'
      → Holds chip laws m p s'
  Kept-Holds h kept = record {
    ready = kept.ready;
    points = λ j lt. ap (λ c. complex_at f c (point_address j)) kept.same ∙ h.points j lt;
    others = λ b out. ap (λ c. c b) kept.same ∙ h.others b out;
  }

  signal_point_lem :
      {m : Cells} {p : ℕ → Complex f} {s : Spi bus}
      → Holds chip laws m p s
      → (offset i : ℕ) → i < no_points
      → ((signal_point bus f offset i s).0 ≡ point_of f offset (word_at m (sample_address i)))
        × Holds chip laws m p (signal_point bus f offset i s).1
  unfolding signal_point
  signal_point_lem {m} {p} {s} h offset i lt =
      let index_in = (bitrev-IsReversal i lt).1 in
      let inside : ltb (get_or bitrev i 0 * decimation_factor) mem_signal_length ≡ true =
        lt→ltb _ _ (omega arith) in
      let (value, kept) =
        spi_mem_read_word_lem chip (sample_address i) h.ready (omega arith, omega (arith, room)) in
      let unchanged : word_at (contents chip s) (sample_address i) ≡ word_at m (sample_address i) =
        ap₂ (λ x y. x * 2 ^ 8 + y) (h.others (sample_address i) (inl (omega arith)))
          (h.others (sample_address i + 1) (inl (omega arith))) in
      rw inside (ap (point_of f offset) (value ∙ unchanged), Kept-Holds h kept)

  -- The array after the loop.
  filled : (ℕ → Complex f) → ℕ → ℕ → (ℕ → Complex f) → ℕ → Complex f
  filled target zero i p = p
  filled target (suc n) i p = filled target n (i + 1) (put_point p i (target i))

  filled_before :
      (target : ℕ → Complex f) (n i : ℕ) (p : ℕ → Complex f) (j : ℕ)
      → j < i
      → filled target n i p j ≡ p j
  unfolding filled
  filled_before target zero i p j lt = refl
  filled_before target (suc n) i p j lt =
      filled_before target n (i + 1) (put_point p i (target i)) j (omega arith) ∙ ground arith

  filled_inside :
      (target : ℕ → Complex f) (n i : ℕ) (p : ℕ → Complex f) (j : ℕ)
      → i ≤ j
      → j < i + n
      → filled target n i p j ≡ target j
  unfolding filled
  filled_inside target zero i p j le lt = absurd (omega arith)
  filled_inside target (suc n) i p j le lt = ground (
    arith,
    filled_before target n (i + 1) (put_point p i (target i)) j,
    filled_inside target n (i + 1) (put_point p i (target i)) j,
  )

  store_points_lem :
      {m : Cells} {p : ℕ → Complex f} {s : Spi bus} (offset n i : ℕ)
      → i + n ≤ no_points
      → Holds chip laws m p s
      → Holds chip laws m
          (filled (λ j. point_of f offset (word_at m (sample_address j))) n i p)
          (store_points bus f offset n i s)
  unfolding store_points filled
  store_points_lem {m} {p} {s} offset zero i le h = h
  store_points_lem {m} {p} {s} offset (suc n) i le h =
      let (value, read) = signal_point_lem h offset i (omega arith) in
      let address : (i * 8 + mem_fft_begin) % 2 ^ 16 ≡ point_address i = omega arith in
      let point = point_of f offset (word_at m (sample_address i)) in
      let next =
        store_points_lem {m = m} {p = put_point p i point}
          {s = spi_mem_write_complex bus f (point_address i) point
            (signal_point bus f offset i s).1}
          offset n (i + 1) (omega arith) (write_point chip laws read room i (omega arith) point) in
      rw (address, value) next

  -- With the memory at rest and large enough: after `decimate_and_store` point `i` is the sample at
  -- twice the reversed index, less the offset word, converted from an `int`, with no imaginary part.
  -- The memory is at rest again, and no cell outside of the points has changed.
  pub decimate_and_store_lem :
      (s : Spi bus)
      → IsReady chip s
      → Holds chip laws
          (contents chip s)
          (decimated f (contents chip s))
          (decimate_and_store bus f s)
  unfolding decimate_and_store
  decimate_and_store_lem s ready =
      let m = contents chip s in
      let (offset_lem, kept) =
        spi_mem_read_word_lem chip mem_signal_offset ready (omega arith, room) in
      let start : Holds chip laws m (λ j. complex_at f m (point_address j)) s = record {
        ready = ready;
        points = λ j lt. refl;
        others = λ b out. refl;
      } in
      let done =
        store_points_lem (word_at m mem_signal_offset) no_points 0 (omega arith)
          (Kept-Holds start kept) in
      rw offset_lem (record {
        ready = done.ready;
        points = λ j lt.
            done.points j lt ∙ filled_inside (decimated f m) no_points 0 _ j (omega arith) lt;
        others = done.others;
      })
