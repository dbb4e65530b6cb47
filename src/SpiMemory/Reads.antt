-- ===== src/SpiMemory/Reads.antt =====
-- The reading functions of spi_memory_23lcxx.c, and the writing of a complex point.
use rtos_hm_board.Prelude.{
  ℕ, zero, suc, ◌+◌, ◌*◌, ◌%◌, ◌^◌, ◌≤◌, ◌<◌, List, [], ◌∷◌, length, take, get_or, bit_or, ◌≡◌,
  refl, ap, ◌∙◌, arith, length-append, All-append,
}
use rtos_hm_board.Prelude.Bits.{bit_or-join}
use rtos_hm_board.Config.{spi_read, spi_write}
use rtos_hm_board.SpiMemory.{
  Spi, send, select_device, deselect_device, fill, command, query, FloatOps, FloatLaws, Complex,
  complex_to_bytes, complex_of_bytes, overwrite, spi_mem_write_complex, spi_mem_read_word,
  spi_mem_read_byte, spi_mem_read_complex,
}
use rtos_hm_board.SpiMemory.Bus.{SpiBus, Bytes, SerialMemory, load}
use rtos_hm_board.SpiMemory.Packets.{length-command, take-command, length-overwrite, take-overwrite}
use rtos_hm_board.SpiMemory.Cells.{word_at, length-load}
use rtos_hm_board.SpiMemory.Laws.{
  IsReady, Wrote, Kept, Fits, contents, long, stored_later, loaded_by, kept_by,
}

-- An array whose first elements are known.
get_or-overwrite_one : (x : ℕ) (b : List ℕ) → 8 ≤ length b → get_or (overwrite (x ∷ []) b) 0 0 ≡ x
get_or-overwrite_one x [] h = absurd (omega arith)
get_or-overwrite_one x (y ∷ b) h = refl

get_or-overwrite_two :
    (x y : ℕ) (b : List ℕ)
    → 8 ≤ length b
    → (get_or (overwrite (x ∷ y ∷ []) b) 0 0 ≡ x) × (get_or (overwrite (x ∷ y ∷ []) b) 1 0 ≡ y)
get_or-overwrite_two x y [] h = absurd (omega arith)
get_or-overwrite_two x y (u ∷ []) h = absurd (omega arith)
get_or-overwrite_two x y (u ∷ v ∷ b) h = (refl, refl)

-- `(b0 << 8) | b1` of two bytes.
pub join_bytes : (x y : ℕ) → x < 256 → y < 256 → bit_or (x * 2 ^ 8 % 2 ^ 16) y ≡ x * 2 ^ 8 + y
join_bytes x y hx hy = ap (λ t. bit_or t y) fits ∙ bit_or-join 8 x y hy
  where
    fits : x * 2 ^ 8 % 2 ^ 16 ≡ x * 2 ^ 8
    fits = omega arith

pub take_all : (n : ℕ) (xs : List ℕ) → length xs ≡ n → take n xs ≡ xs
take_all zero [] e = refl
take_all zero (x ∷ xs) e = absurd (omega arith)
take_all (suc n) [] e = refl
take_all (suc n) (x ∷ xs) e = ap (λ t. x ∷ t) (take_all n xs (omega arith))

pub length-complex_to_bytes :
    (f : FloatOps) → FloatLaws f → (c : Complex f) → length (complex_to_bytes f c) ≡ 8
unfolding complex_to_bytes
length-complex_to_bytes f laws c = omega (
  arith,
  length-append {0} (f.to_bytes c.real) (f.to_bytes c.imag),
  laws.length-to_bytes c.real,
  laws.length-to_bytes c.imag,
)

complex_to_bytes-Bytes :
    (f : FloatOps) → FloatLaws f → (c : Complex f) → Bytes (complex_to_bytes f c)
unfolding complex_to_bytes
complex_to_bytes-Bytes f laws c =
    All-append (λ x. x < 2 ^ 8) (f.to_bytes c.real) (f.to_bytes c.imag) (laws.to_bytes-Bytes c.real)
      (laws.to_bytes-Bytes c.imag)

module _ {bus : SpiBus} (chip : SerialMemory bus) where
  open chip use {cells, session-deselect, cells_are_bytes}

  module _ {s : Spi bus} (a : ℕ) (r : IsReady chip s) (n : ℕ) where
    -- The answer stands at the front of the buffer.
    buffer-query :
        Fits chip a n
        → (query bus a n s).buffer
          ≡ overwrite (load (contents chip s) a n) (command spi_read a s.buffer)
    unfolding query
    buffer-query fits = rw (
      take-command spi_read a s.buffer (long chip a r),
      loaded_by chip a s.device r.at_rest n fits,
    )

    -- A query leaves the memory as it is.
    query-Kept : Kept chip s (query bus a n s)
    unfolding query
    query-Kept = rw (take-command spi_read a s.buffer (long chip a r)) (record {
      ready = record {
        at_rest = session-deselect _;
        buffer_size =
            length-overwrite _ _
            ∙ length-command spi_read a s.buffer (long chip a r)
            ∙ r.buffer_size;
      };
      same = kept_by chip a s.device r.at_rest n;
    })

    long_command : 8 ≤ length (command spi_read a s.buffer)
    long_command = rw (length-command spi_read a s.buffer (long chip a r)) (long chip a r)

  module _ {s : Spi bus} (a : ℕ) (r : IsReady chip s) where
    -- `spi_mem_read_byte` returns the byte at its address, and changes no cell.
    pub spi_mem_read_byte_lem :
        Fits chip a 1
        → ((spi_mem_read_byte bus a s).0 ≡ contents chip s a)
          × Kept chip s (spi_mem_read_byte bus a s).1
    unfolding spi_mem_read_byte
    spi_mem_read_byte_lem fits = (
      ap (λ b. get_or b 0 0) (buffer-query a r 1 fits)
          ∙ get_or-overwrite_one _ _ (long_command a r 1),
      query-Kept a r 1,
    )

    -- `spi_mem_read_word` returns the word at its address, and changes no cell.
    pub spi_mem_read_word_lem :
        Fits chip a 2
        → ((spi_mem_read_word bus a s).0 ≡ word_at (contents chip s) a)
          × Kept chip s (spi_mem_read_word bus a s).1
    unfolding spi_mem_read_word
    spi_mem_read_word_lem fits = (
      ap (λ b. bit_or (get_or b 0 0 * 2 ^ 8 % 2 ^ 16) (get_or b 1 0)) (buffer-query a r 2 fits)
          ∙ rw (bytes.0, bytes.1) (join_bytes _ _ (cells_are_bytes _ _) (cells_are_bytes _ _)),
      query-Kept a r 2,
    )
      where
        bytes :
            (get_or (overwrite (load (contents chip s) a 2) (command spi_read a s.buffer)) 0 0
              ≡ contents chip s a)
            × (get_or (overwrite (load (contents chip s) a 2) (command spi_read a s.buffer)) 1 0
                ≡ contents chip s (a + 1))
        bytes = get_or-overwrite_two _ _ _ (long_command a r 2)

  module _ (f : FloatOps) {s : Spi bus} (a : ℕ) (r : IsReady chip s) where
    -- `spi_mem_read_complex` returns the point of the eight bytes at its address, and changes no cell.
    pub spi_mem_read_complex_lem :
        Fits chip a 8
        → ((spi_mem_read_complex bus f a s).0 ≡ complex_of_bytes f (load (contents chip s) a 8))
          × Kept chip s (spi_mem_read_complex bus f a s).1
    unfolding spi_mem_read_complex
    spi_mem_read_complex_lem fits = (
      ap (λ b. complex_of_bytes f (take 8 b)) (buffer-query a r 8 fits)
          ∙ ap (complex_of_bytes f) (
              take-overwrite 8 (load (contents chip s) a 8) _ (length-load (contents chip s) a 8)
                (long_command a r 8)),
      query-Kept a r 8,
    )

    -- `spi_mem_write_complex` stores the eight bytes of the point.
    pub spi_mem_write_complex_lem :
        FloatLaws f
        → (c : Complex f) → Fits chip a 8
        → Wrote chip s (spi_mem_write_complex bus f a c s) a (complex_to_bytes f c)
    unfolding spi_mem_write_complex send select_device deselect_device fill
    spi_mem_write_complex_lem laws c fits =
        rw
          (
            take_all 8 (complex_to_bytes f c) eight,
            take-command spi_write a s.buffer (long chip a r),
            take-overwrite 8 (complex_to_bytes f c) (command spi_write a s.buffer) eight
                (rw (length-command spi_write a s.buffer (long chip a r)) (long chip a r)),
          )
          (record {
            ready = record {
              at_rest = session-deselect _;
              buffer_size =
                  length-overwrite (complex_to_bytes f c) (command spi_write a s.buffer)
                  ∙ length-command spi_write a s.buffer (long chip a r)
                  ∙ r.buffer_size;
            };
            stored =
                stored_later chip a s.device r.at_rest (complex_to_bytes f c)
                  (fits.0, rw eight fits.1) (complex_to_bytes-Bytes f laws c);
          })
      where
        eight : length (complex_to_bytes f c) ≡ 8
        eight = length-complex_to_bytes f laws c
