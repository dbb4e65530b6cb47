-- ===== src/Fft/Points.antt =====
-- The array of points that fft_memory.c keeps in the external memory.
use rtos_hm_board.Prelude.{
  ℕ, ◌+◌, ◌*◌, ◌≤◌, ◌<◌, ◌⊎◌, ◌==◌, if◌then◌else◌, inl, inr, ◌≡◌, ap, ◌∙◌, arith, ℕ_discrete,
  length,
}
use rtos_hm_board.Config.{mem_fft_begin, mem_signal_offset, no_points}
use rtos_hm_board.SpiMemory.{
  Spi, FloatOps, FloatLaws, Complex, complex_to_bytes, spi_mem_read_complex, spi_mem_write_complex,
}
use rtos_hm_board.SpiMemory.Bus.{SpiBus, SerialMemory, Cells, store}
use rtos_hm_board.SpiMemory.Cells.{store-outside}
use rtos_hm_board.SpiMemory.Laws.{IsReady, contents}
use rtos_hm_board.SpiMemory.Reads.{
  spi_mem_read_complex_lem, spi_mem_write_complex_lem, length-complex_to_bytes,
}
use rtos_hm_board.SpiMemory.RoundTrip.{complex_at, complex_at-store, complex_at-store_ne}

abbrev pub point_address : ℕ → ℕ
point_address i = i * 8 + mem_fft_begin

-- Outside the 512 points.
abbrev pub IsOutside : ℕ → Type 0
IsOutside b = (b < mem_fft_begin) ⊎ (point_address no_points ≤ b)

-- An array of points is a function of the index.
abbrev pub put_point : {f : FloatOps} → (ℕ → Complex f) → ℕ → Complex f → ℕ → Complex f
put_point p i c j = if j == i then c else p j

module _ {bus : SpiBus} (chip : SerialMemory bus) {f : FloatOps} (laws : FloatLaws f) where
  -- The memory is at rest, holds the points, and has the cells of `m` outside of them.
  pub record Holds (m : Cells) (p : ℕ → Complex f) (s : Spi bus) : Type 0 where
    pub ready : IsReady chip s
    pub points : (j : ℕ) → j < no_points → complex_at f (contents chip s) (point_address j) ≡ p j
    pub others : (b : ℕ) → IsOutside b → contents chip s b ≡ m b

  module _ {m : Cells} {p : ℕ → Complex f} {s : Spi bus} (h : Holds m p s)
      (room : mem_signal_offset + 2 ≤ chip.size) (i : ℕ) (i_in : i < no_points) where
    pub read_point :
        ((spi_mem_read_complex bus f (point_address i) s).0 ≡ p i)
        × Holds m p (spi_mem_read_complex bus f (point_address i) s).1
    read_point =
        let (value, kept) =
          spi_mem_read_complex_lem chip f (point_address i) h.ready
            (omega arith, omega (arith, room)) in
        (
          value ∙ h.points i i_in,
          record {
            ready = kept.ready;
            points = λ j lt. ap (λ c. complex_at f c (point_address j)) kept.same ∙ h.points j lt;
            others = λ b out. ap (λ c. c b) kept.same ∙ h.others b out;
          },
        )

    pub write_point :
        (c : Complex f)
        → Holds m (put_point p i c) (spi_mem_write_complex bus f (point_address i) c s)
    write_point c =
        let wrote =
          spi_mem_write_complex_lem chip f (point_address i) h.ready laws c
            (omega arith, omega (arith, room)) in
        record {
          ready = wrote.ready;
          points = λ j lt. ap (λ x. complex_at f x (point_address j)) wrote.stored ∙ changed j lt;
          others = λ b out.
              ap (λ x. x b) wrote.stored
              ∙ store-outside (contents chip s) (point_address i) (complex_to_bytes f c) b
                  (apart b out)
              ∙ h.others b out;
        }
      where
        changed :
            (j : ℕ)
            → j < no_points
            → complex_at f
                (store (contents chip s) (point_address i) (complex_to_bytes f c))
                (point_address j)
              ≡ put_point p i c j
        changed j lt = elim (ℕ_discrete j i) [
          | yes e ↦
              ap
                (λ k.
                  complex_at f (store (contents chip s) (point_address i) (complex_to_bytes f c))
                    (point_address k))
                e
              ∙ complex_at-store f laws (contents chip s) (point_address i) c
              ∙ ground arith
          | no ne ↦
              complex_at-store_ne f laws (contents chip s) (point_address i) c (point_address j)
                (ground arith)
              ∙ h.points j lt
              ∙ ground arith
        ]

        apart :
            (b : ℕ)
            → IsOutside b
            → (b < point_address i) ⊎ (point_address i + length (complex_to_bytes f c) ≤ b)
        apart b (inl low) = inl (omega arith)
        apart b (inr high) = inr (omega (arith, length-complex_to_bytes f laws c))
