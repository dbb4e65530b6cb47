-- ===== src/SpiMemory/Bus.antt =====
-- What spi_memory_23lcxx.c calls: the SPI master service of the vendored ASF, with the serial
-- memory chip behind it. Both are parameters.
use rtos_hm_board.Prelude.{
  ℕ, zero, suc, ◌+◌, ◌*◌, ◌^◌, ◌≤◌, ◌<◌, ◌==◌, if◌then◌else◌, List, [], ◌∷◌, ◌≡◌, length, All,
}
use rtos_hm_board.Config.{spi_read, spi_write}

-- `spi_select_device`, `spi_deselect_device`, `spi_write_packet` and `spi_read_packet`, each for
-- the one device of the board. A packet is the list of the bytes that cross the bus.
pub record SpiBus : Type 1 where
  pub Device : Type 0
  pub select : Device → Device
  pub deselect : Device → Device
  pub write_packet : List ℕ → Device → Device
  pub read_packet : ℕ → Device → List ℕ × Device

-- How far a command has come since the chip was selected. The number is the next address.
pub data Session : Type 0 where
  idle selected : Session
  writing reading : ℕ → Session

-- The contents of the memory, an address to a byte.
abbrev pub Cells : Type 0
Cells = ℕ → ℕ

abbrev pub update : Cells → ℕ → ℕ → Cells
update m a x b = if b == a then x else m b

abbrev pub store : Cells → ℕ → List ℕ → Cells
store m a [] = m
store m a (x ∷ xs) = store (update m a x) (a + 1) xs

abbrev pub load : Cells → ℕ → ℕ → List ℕ
load m a zero = []
load m a (suc n) = m a ∷ load m (a + 1) n

-- What crosses the bus.
abbrev pub Bytes : List ℕ → Type 0
Bytes xs = All (λ x. x < 2 ^ 8) xs

abbrev pub address_of : ℕ → ℕ → ℕ → ℕ
address_of high middle low = high * 2 ^ 16 + middle * 2 ^ 8 + low

-- The memory's data sheet, for sequential mode: a command is an opcode and three address bytes,
-- most significant first; data follows in the same packet or in later ones, until the chip is
-- deselected. Nothing is said of an access past the last cell.
pub record SerialMemory (bus : SpiBus) : Type 0 where
  pub size : ℕ
  pub session : bus.Device → Session
  pub cells : bus.Device → Cells
  pub cells_are_bytes : (d : bus.Device) (a : ℕ) → cells d a < 256
  pub session-select : (d : bus.Device) → session d ≡ idle → session (bus.select d) ≡ selected
  pub cells-select : (d : bus.Device) → cells (bus.select d) ≡ cells d
  pub session-deselect : (d : bus.Device) → session (bus.deselect d) ≡ idle
  pub cells-deselect : (d : bus.Device) → cells (bus.deselect d) ≡ cells d
  pub session-write_command :
      (d : bus.Device) (h m l : ℕ) (xs : List ℕ)
      → session d ≡ selected
      → address_of h m l + length xs ≤ size
      → session (bus.write_packet (spi_write ∷ h ∷ m ∷ l ∷ xs) d)
        ≡ writing (address_of h m l + length xs)
  pub cells-write_command :
      (d : bus.Device) (h m l : ℕ) (xs : List ℕ)
      → session d ≡ selected
      → address_of h m l + length xs ≤ size
      → Bytes xs
      → cells (bus.write_packet (spi_write ∷ h ∷ m ∷ l ∷ xs) d)
        ≡ store (cells d) (address_of h m l) xs
  pub session-write_more :
      (d : bus.Device) (a : ℕ) (xs : List ℕ)
      → session d ≡ writing a
      → a + length xs ≤ size
      → session (bus.write_packet xs d) ≡ writing (a + length xs)
  pub cells-write_more :
      (d : bus.Device) (a : ℕ) (xs : List ℕ)
      → session d ≡ writing a
      → a + length xs ≤ size
      → Bytes xs
      → cells (bus.write_packet xs d) ≡ store (cells d) a xs
  pub session-read_command :
      (d : bus.Device) (h m l : ℕ)
      → session d ≡ selected
      → session (bus.write_packet (spi_read ∷ h ∷ m ∷ l ∷ []) d) ≡ reading (address_of h m l)
  pub cells-read_command :
      (d : bus.Device) (h m l : ℕ)
      → session d ≡ selected
      → cells (bus.write_packet (spi_read ∷ h ∷ m ∷ l ∷ []) d) ≡ cells d
  pub read_packet_lem :
      (d : bus.Device) (a n : ℕ)
      → session d ≡ reading a
      → a + n ≤ size
      → (bus.read_packet n d).0 ≡ load (cells d) a n
  pub cells-read_packet : (d : bus.Device) (n : ℕ) → cells (bus.read_packet n d).1 ≡ cells d
