-- ===== src/SpiMemory.antt =====
-- spi_memory_23lcxx.c: words, bytes and complex points in the external SPI memory.
pub mod Bus
pub mod Packets
pub mod Cells
pub mod Laws
pub mod Reads
pub mod RoundTrip
use rtos_hm_board.Prelude.{
  ℕ, zero, suc, ◌*◌, ◌/◌, ◌%◌, ◌^◌, List, [], ◌∷◌, ◌++◌, bit_and, bit_or, set, take, drop, get_or,
  length, ◌≡◌,
}
use rtos_hm_board.Config.{spi_read, spi_write}
use rtos_hm_board.Prelude.Signed.{ℤ}
use Bus.{SpiBus, Bytes}

-- `float` of the AVR compiler: four bytes, on which the code calculates through the operations
-- of the C library. `of_int` and `to_int` convert an `int`, given by its 16 bits; `of_micro` is a
-- constant of the program with six decimals, in millionths.
pub record FloatOps : Type 1 where
  pub Float : Type 0
  pub add : Float → Float → Float
  pub sub : Float → Float → Float
  pub mul : Float → Float → Float
  pub of_int : ℕ → Float
  pub to_int : Float → ℕ
  pub of_micro : ℤ → Float
  pub log : Float → Float
  pub to_bytes : Float → List ℕ
  pub of_bytes : List ℕ → Float

-- The representation of a `float` in memory: four bytes that determine it.
pub record FloatLaws (f : FloatOps) : Type 0 where
  pub length-to_bytes : (x : f.Float) → length (f.to_bytes x) ≡ 4
  pub to_bytes-Bytes : (x : f.Float) → Bytes (f.to_bytes x)
  pub of_bytes-to_bytes : (x : f.Float) → f.of_bytes (f.to_bytes x) ≡ x

-- The struct `complex`.
pub record Complex (f : FloatOps) : Type 0 where
  pub real : f.Float
  pub imag : f.Float

-- `memcpy` of a `complex` to bytes and back: `real` comes first, and the struct has no padding.
module _ (f : FloatOps) where
  unfoldable pub complex_to_bytes : Complex f → List ℕ
  complex_to_bytes c = f.to_bytes c.real ++ f.to_bytes c.imag

  unfoldable pub complex_of_bytes : List ℕ → Complex f
  complex_of_bytes xs = record {
    real = f.of_bytes (take 4 xs);
    imag = f.of_bytes (take 4 (drop 4 xs));
  }

-- The global `buffer_memory`, 32 bytes, and the device at the other end of the bus.
pub record Spi (bus : SpiBus) : Type 0 where
  pub buffer : List ℕ
  pub device : bus.Device

-- The four assignments that begin each function. An array of `char` keeps the low 8 bits.
unfoldable pub command : ℕ → ℕ → List ℕ → List ℕ
command opcode address b =
    set
      (set (set (set b 0 opcode) 1 (bit_and address 0xff0000 / 2 ^ 16 % 2 ^ 8)) 2
        (bit_and address 0x00ff00 / 2 ^ 8 % 2 ^ 8))
      3 (bit_and address 0x0000ff % 2 ^ 8)

-- What is written over the first bytes of an array; bytes past its end are lost.
abbrev pub overwrite : List ℕ → List ℕ → List ℕ
overwrite xs [] = []
overwrite [] (b ∷ bs) = b ∷ bs
overwrite (x ∷ xs) (b ∷ bs) = x ∷ overwrite xs bs

module _ (bus : SpiBus) where
  -- `spi_write_packet(&SPI_MEM_INTERFACE, buffer_memory, n)`
  unfoldable pub send : ℕ → Spi bus → Spi bus
  send n s = record s { device = bus.write_packet (take n s.buffer) s.device }

  -- `spi_read_packet(&SPI_MEM_INTERFACE, buffer_memory, n)`
  unfoldable pub receive : ℕ → Spi bus → Spi bus
  receive n s =
      let (xs, d) = bus.read_packet n s.device in
      record { buffer = overwrite xs s.buffer; device = d }

  unfoldable pub select_device : Spi bus → Spi bus
  select_device s = record s { device = bus.select s.device }

  unfoldable pub deselect_device : Spi bus → Spi bus
  deselect_device s = record s { device = bus.deselect s.device }

  unfoldable pub fill : (List ℕ → List ℕ) → Spi bus → Spi bus
  fill f s = record s { buffer = f s.buffer }

  -- A read command and the answer of `n` bytes, which the three reading functions share.
  unfoldable pub query : ℕ → ℕ → Spi bus → Spi bus
  unfolding send receive select_device deselect_device fill
  query address n s =
      deselect_device (receive n (send 4 (select_device (fill (command spi_read address) s))))

  unfoldable pub spi_mem_write_word : ℕ → ℕ → Spi bus → Spi bus
  spi_mem_write_word address word s =
      let high = word / 2 ^ 8 % 2 ^ 8 in
      let low = word % 2 ^ 8 in
      deselect_device (
        send 6 (select_device (fill (λ b. set (set (command spi_write address b) 4 high) 5 low) s)))

  unfoldable pub spi_mem_write_byte : ℕ → ℕ → Spi bus → Spi bus
  spi_mem_write_byte address byte s =
      deselect_device
        (send 5 (select_device (fill (λ b. set (command spi_write address b) 4 byte) s)))

  unfoldable pub spi_mem_read_word : ℕ → Spi bus → ℕ × Spi bus
  spi_mem_read_word address s =
      let s' = query address 2 s in
      let high = get_or s'.buffer 0 0 * 2 ^ 8 % 2 ^ 16 in (bit_or high (get_or s'.buffer 1 0), s')

  unfoldable pub spi_mem_read_byte : ℕ → Spi bus → ℕ × Spi bus
  spi_mem_read_byte address s = let s' = query address 1 s in (get_or s'.buffer 0 0, s')

  -- The command and the point are two packets of one selection; `memcpy` copies 8 bytes.
  module _ (f : FloatOps) where
    unfoldable pub spi_mem_write_complex : ℕ → Complex f → Spi bus → Spi bus
    spi_mem_write_complex address point s =
        let commanded = send 4 (select_device (fill (command spi_write address) s)) in
        deselect_device (send 8 (fill (overwrite (take 8 (complex_to_bytes f point))) commanded))

    unfoldable pub spi_mem_read_complex : ℕ → Spi bus → Complex f × Spi bus
    spi_mem_read_complex address s =
        let s' = query address 8 s in (complex_of_bytes f (take 8 s'.buffer), s')
