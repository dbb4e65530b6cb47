-- ===== src/SpiMemory/RoundTrip.antt =====
-- What the reading functions of spi_memory_23lcxx.c return after the writing ones.
use rtos_hm_board.Prelude.{
  ℕ, zero, suc, ◌+◌, ◌/◌, ◌%◌, ◌^◌, ◌≤◌, ◌<◌, List, [], ◌∷◌, ◌++◌, length, take, drop, ◌⊎◌, ◌≡◌,
  refl, ap, ◌∙◌, sym, subst, arith,
}
use rtos_hm_board.SpiMemory.{
  Spi, FloatOps, FloatLaws, Complex, complex_to_bytes, complex_of_bytes, spi_mem_write_word,
  spi_mem_write_byte, spi_mem_write_complex, spi_mem_read_word, spi_mem_read_byte,
  spi_mem_read_complex,
}
use rtos_hm_board.SpiMemory.Bus.{SpiBus, SerialMemory, Cells, store, load}
use rtos_hm_board.SpiMemory.Cells.{word_at, store-outside, load-store, load-store_outside}
use rtos_hm_board.SpiMemory.Laws.{
  IsReady, Fits, contents, spi_mem_write_word_lem, spi_mem_write_byte_lem,
}
use rtos_hm_board.SpiMemory.Reads.{
  spi_mem_read_word_lem, spi_mem_read_byte_lem, spi_mem_read_complex_lem, spi_mem_write_complex_lem,
  length-complex_to_bytes, take_all,
}

abbrev pub word_bytes : ℕ → List ℕ
word_bytes w = w / 2 ^ 8 % 2 ^ 8 ∷ w % 2 ^ 8 ∷ []

-- A stored word is the word at its address, and no word elsewhere changes.
pub word_at-store : (m : Cells) (a w : ℕ) → w < 2 ^ 16 → word_at (store m a (word_bytes w)) a ≡ w
word_at-store m a w h = ground arith

pub word_at-store_ne :
    (m : Cells) (a : ℕ) (xs : List ℕ) (b : ℕ)
    → (b + 2 ≤ a) ⊎ (a + length xs ≤ b)
    → word_at (store m a xs) b ≡ word_at m b
word_at-store_ne m a xs b apart =
    ground (arith, store-outside m a xs b, store-outside m a xs (b + 1))

-- `memcpy` to bytes and back.
take-front : (n : ℕ) (xs ys : List ℕ) → length xs ≡ n → take n (xs ++ ys) ≡ xs
take-front zero [] ys e = refl
take-front zero (x ∷ xs) ys e = absurd (omega arith)
take-front (suc n) [] ys e = absurd (omega arith)
take-front (suc n) (x ∷ xs) ys e = ap (λ t. x ∷ t) (take-front n xs ys (omega arith))

drop-front : (n : ℕ) (xs ys : List ℕ) → length xs ≡ n → drop n (xs ++ ys) ≡ ys
drop-front zero [] ys e = refl
drop-front zero (x ∷ xs) ys e = absurd (omega arith)
drop-front (suc n) [] ys e = absurd (omega arith)
drop-front (suc n) (x ∷ xs) ys e = drop-front n xs ys (omega arith)

pub complex_of_bytes-to_bytes :
    (f : FloatOps) → FloatLaws f → (c : Complex f) → complex_of_bytes f (complex_to_bytes f c) ≡ c
unfolding complex_of_bytes complex_to_bytes
complex_of_bytes-to_bytes f laws c = λ i. record { real = re i; imag = im i }
  where
    re : f.of_bytes (take 4 (f.to_bytes c.real ++ f.to_bytes c.imag)) ≡ c.real
    re =
        ap f.of_bytes (take-front 4 _ _ (laws.length-to_bytes c.real))
        ∙ laws.of_bytes-to_bytes c.real

    im : f.of_bytes (take 4 (drop 4 (f.to_bytes c.real ++ f.to_bytes c.imag))) ≡ c.imag
    im =
        ap (λ t. f.of_bytes (take 4 t))
          (drop-front 4 _ (f.to_bytes c.imag) (laws.length-to_bytes c.real))
        ∙ ap f.of_bytes (take_all 4 (f.to_bytes c.imag) (laws.length-to_bytes c.imag))
        ∙ laws.of_bytes-to_bytes c.imag

-- The point at an address.
abbrev pub complex_at : (f : FloatOps) → Cells → ℕ → Complex f
complex_at f m a = complex_of_bytes f (load m a 8)

pub complex_at-store :
    (f : FloatOps)
    → FloatLaws f
    → (m : Cells) (a : ℕ) (c : Complex f) → complex_at f (store m a (complex_to_bytes f c)) a ≡ c
complex_at-store f laws m a c =
    ap (complex_of_bytes f) (
      subst (λ n. load (store m a (complex_to_bytes f c)) a n ≡ complex_to_bytes f c)
        (length-complex_to_bytes f laws c) (load-store m a (complex_to_bytes f c)))
    ∙ complex_of_bytes-to_bytes f laws c

pub complex_at-store_ne :
    (f : FloatOps)
    → FloatLaws f
    → (m : Cells) (a : ℕ) (c : Complex f) (b : ℕ) → (b + 8 ≤ a) ⊎ (a + 8 ≤ b)
    → complex_at f (store m a (complex_to_bytes f c)) b ≡ complex_at f m b
complex_at-store_ne f laws m a c b apart = ap (complex_of_bytes f) (
    load-store_outside m a (complex_to_bytes f c) b 8 (rw (length-complex_to_bytes f laws c) apart))

module _ {bus : SpiBus} (chip : SerialMemory bus) {s : Spi bus} (a : ℕ) (r : IsReady chip s) where
  -- With the memory at rest: a word of 16 bits that `spi_mem_write_word` wrote inside the chip is
  -- what `spi_mem_read_word` then returns at that address; at an address inside the chip whose two
  -- bytes lie apart it returns what it returned before.
  pub read_word-write_word :
      (w b : ℕ)
      → w < 2 ^ 16
      → Fits chip a 2
      → Fits chip b 2
      → (b + 2 ≤ a) ⊎ (a + 2 ≤ b)
      → ((spi_mem_read_word bus a (spi_mem_write_word bus a w s)).0 ≡ w)
        × ((spi_mem_read_word bus b (spi_mem_write_word bus a w s)).0
            ≡ (spi_mem_read_word bus b s).0)
  read_word-write_word w b small fits fits_b apart =
      let wrote = spi_mem_write_word_lem chip a r w fits in
      (
        (spi_mem_read_word_lem chip a wrote.ready fits).0
            ∙ ap (λ m. word_at m a) wrote.stored
            ∙ word_at-store (contents chip s) a w small,
        (spi_mem_read_word_lem chip b wrote.ready fits_b).0
            ∙ ap (λ m. word_at m b) wrote.stored
            ∙ word_at-store_ne (contents chip s) a (word_bytes w) b apart
            ∙ sym (spi_mem_read_word_lem chip b r fits_b).0,
      )

  -- With the memory at rest: a byte that `spi_mem_write_byte` wrote inside the chip is what
  -- `spi_mem_read_byte` then returns at that address; at any other address inside the chip it
  -- returns what it returned before.
  pub read_byte-write_byte :
      (x b : ℕ)
      → x < 2 ^ 8
      → Fits chip a 1
      → Fits chip b 1
      → (b + 1 ≤ a) ⊎ (a + 1 ≤ b)
      → ((spi_mem_read_byte bus a (spi_mem_write_byte bus a x s)).0 ≡ x)
        × ((spi_mem_read_byte bus b (spi_mem_write_byte bus a x s)).0
            ≡ (spi_mem_read_byte bus b s).0)
  read_byte-write_byte x b small fits fits_b apart =
      let wrote = spi_mem_write_byte_lem chip a r x small fits in
      (
        (spi_mem_read_byte_lem chip a wrote.ready fits).0
            ∙ ap (λ m. m a) wrote.stored
            ∙ ground arith,
        (spi_mem_read_byte_lem chip b wrote.ready fits_b).0
            ∙ ap (λ m. m b) wrote.stored
            ∙ store-outside (contents chip s) a (x ∷ []) b (ground arith)
            ∙ sym (spi_mem_read_byte_lem chip b r fits_b).0,
      )

  -- With the memory at rest, and numbers that their four bytes determine: a point that
  -- `spi_mem_write_complex` wrote inside the chip is what `spi_mem_read_complex` then returns at
  -- that address; a point inside the chip whose eight bytes lie apart is read as before.
  pub read_complex-write_complex :
      (f : FloatOps) (c : Complex f) (b : ℕ)
      → FloatLaws f
      → Fits chip a 8
      → Fits chip b 8
      → (b + 8 ≤ a) ⊎ (a + 8 ≤ b)
      → ((spi_mem_read_complex bus f a (spi_mem_write_complex bus f a c s)).0 ≡ c)
        × ((spi_mem_read_complex bus f b (spi_mem_write_complex bus f a c s)).0
            ≡ (spi_mem_read_complex bus f b s).0)
  read_complex-write_complex f c b laws fits fits_b apart =
      let wrote = spi_mem_write_complex_lem chip f a r laws c fits in
      (
        (spi_mem_read_complex_lem chip f a wrote.ready fits).0
            ∙ ap (λ m. complex_at f m a) wrote.stored
            ∙ complex_at-store f laws (contents chip s) a c,
        (spi_mem_read_complex_lem chip f b wrote.ready fits_b).0
            ∙ ap (λ m. complex_at f m b) wrote.stored
            ∙ complex_at-store_ne f laws (contents chip s) a c b apart
            ∙ sym (spi_mem_read_complex_lem chip f b r fits_b).0,
      )
