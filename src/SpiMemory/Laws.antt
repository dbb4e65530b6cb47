-- ===== src/SpiMemory/Laws.antt =====
-- The functions of spi_memory_23lcxx.c against the contents of the memory chip.
use rtos_hm_board.Prelude.{
  ℕ, ◌+◌, ◌/◌, ◌%◌, ◌^◌, ◌≤◌, ◌<◌, List, [], ◌∷◌, length, ◌≡◌, ap, ap₂, ◌∙◌, arith, length-set,
}
use rtos_hm_board.Config.{spi_read, spi_write}
use rtos_hm_board.SpiMemory.{
  Spi, send, select_device, deselect_device, fill, spi_mem_write_word, spi_mem_write_byte,
}
use rtos_hm_board.SpiMemory.Bus.{
  SpiBus, SerialMemory, idle, writing, reading, Bytes, Cells, store, load, address_of,
}
use rtos_hm_board.SpiMemory.Packets.{
  high_byte, middle_byte, low_byte, address_of-bytes, length-command, take-command_byte,
  take-command_word,
}

module _ {bus : SpiBus} (chip : SerialMemory bus) where
  open chip use {
    size, session, cells, session-select, cells-select, session-deselect, cells-deselect,
    session-write_command, cells-write_command, session-write_more, cells-write_more,
    session-read_command, cells-read_command, read_packet_lem, cells-read_packet, cells_are_bytes,
  }

  -- Between two calls: no command is under way, and the buffer has its 32 bytes.
  pub record IsReady (s : Spi bus) : Type 0 where
    pub at_rest : session s.device ≡ idle
    pub buffer_size : length s.buffer ≡ 32

  abbrev pub contents : Spi bus → Cells
  contents s = cells s.device

  -- `s'` is ready, and its memory is that of `s` with `xs` stored from `a` on.
  pub record Wrote (s s' : Spi bus) (a : ℕ) (xs : List ℕ) : Type 0 where
    pub ready : IsReady s'
    pub stored : contents s' ≡ store (contents s) a xs

  -- `s'` is ready, and has the memory of `s`.
  pub record Kept (s s' : Spi bus) : Type 0 where
    pub ready : IsReady s'
    pub same : contents s' ≡ contents s

  -- An address of 24 bits from which `n` bytes lie in the chip.
  abbrev pub Fits : ℕ → ℕ → Type 0
  Fits a n = (a < 2 ^ 24) × (a + n ≤ size)

  module _ (a : ℕ) (d : bus.Device) (rest : session d ≡ idle) where
    abbrev pub address_bytes : List ℕ → List ℕ
    address_bytes xs = high_byte a ∷ middle_byte a ∷ low_byte a ∷ xs

    -- A write command with its data, from selection to deselection.
    stored_by :
        (xs : List ℕ)
        → Fits a (length xs)
        → Bytes xs
        → cells (bus.deselect (bus.write_packet (spi_write ∷ address_bytes xs) (bus.select d)))
          ≡ store (cells d) a xs
    stored_by xs fits bytes =
        cells-deselect _
        ∙ cells-write_command (bus.select d) (high_byte a) (middle_byte a) (low_byte a) xs
            (session-select d rest) (rw (address_of-bytes a fits.0) fits.1) bytes
        ∙ ap₂ (λ m t. store m t xs) (cells-select d) (address_of-bytes a fits.0)

    -- A write command, and its data in a second packet.
    pub stored_later :
        (xs : List ℕ)
        → Fits a (length xs)
        → Bytes xs
        → cells (
            bus.deselect (
              bus.write_packet xs (bus.write_packet (spi_write ∷ address_bytes []) (bus.select d))))
          ≡ store (cells d) a xs
    stored_later xs fits bytes =
        cells-deselect _
        ∙ cells-write_more _ a xs commanded fits.1 bytes
        ∙ ap (λ m. store m a xs)
            (cells-write_command (bus.select d) (high_byte a) (middle_byte a) (low_byte a) []
                (session-select d rest) within tt
              ∙ cells-select d)
      where
        within : address_of (high_byte a) (middle_byte a) (low_byte a) + 0 ≤ size
        within = rw (address_of-bytes a fits.0) (omega arith)

        commanded :
            session (bus.write_packet (spi_write ∷ address_bytes []) (bus.select d)) ≡ writing a
        commanded =
            session-write_command (bus.select d) (high_byte a) (middle_byte a) (low_byte a) []
              (session-select d rest) within
            ∙ ap writing (omega (arith, address_of-bytes a fits.0))

    -- A read command and its answer.
    abbrev pub asked : bus.Device
    asked = bus.write_packet (spi_read ∷ address_bytes []) (bus.select d)

    pub loaded_by : (n : ℕ) → Fits a n → (bus.read_packet n asked).0 ≡ load (cells d) a n
    loaded_by n fits =
        read_packet_lem asked a n
          (session-read_command (bus.select d) (high_byte a) (middle_byte a) (low_byte a)
              (session-select d rest)
            ∙ ap reading (address_of-bytes a fits.0))
          fits.1
        ∙ ap (λ m. load m a n) asked_keeps
      where
        asked_keeps : cells asked ≡ cells d
        asked_keeps =
            cells-read_command (bus.select d) (high_byte a) (middle_byte a) (low_byte a)
              (session-select d rest)
            ∙ cells-select d

    pub kept_by : (n : ℕ) → cells (bus.deselect (bus.read_packet n asked).1) ≡ cells d
    kept_by n =
        cells-deselect _
        ∙ cells-read_packet asked n
        ∙ cells-read_command (bus.select d) (high_byte a) (middle_byte a) (low_byte a)
            (session-select d rest)
        ∙ cells-select d

  module _ {s : Spi bus} (a : ℕ) (r : IsReady s) where
    pub long : 8 ≤ length s.buffer
    long = omega (arith, r.buffer_size)

    -- `spi_mem_write_word` stores the two bytes of the word, the high one first, and nothing else.
    pub spi_mem_write_word_lem :
        (w : ℕ)
        → Fits a 2
        → Wrote s (spi_mem_write_word bus a w s) a (w / 2 ^ 8 % 2 ^ 8 ∷ w % 2 ^ 8 ∷ [])
    unfolding spi_mem_write_word send select_device deselect_device fill
    spi_mem_write_word_lem w fits = record {
      ready = record {
        at_rest = session-deselect _;
        buffer_size =
            rw (length-set, length-set, length-command spi_write a s.buffer long) r.buffer_size;
      };
      stored = rw (take-command_word spi_write a s.buffer long (w / 2 ^ 8 % 2 ^ 8) (w % 2 ^ 8)) (
          stored_by a s.device r.at_rest (w / 2 ^ 8 % 2 ^ 8 ∷ w % 2 ^ 8 ∷ []) fits
            (omega arith, (omega arith, tt)));
    }

    -- `spi_mem_write_byte` stores its byte.
    pub spi_mem_write_byte_lem :
        (x : ℕ) → x < 2 ^ 8 → Fits a 1 → Wrote s (spi_mem_write_byte bus a x s) a (x ∷ [])
    unfolding spi_mem_write_byte send select_device deselect_device fill
    spi_mem_write_byte_lem x small fits = record {
      ready = record {
        at_rest = session-deselect _;
        buffer_size = rw (length-set, length-command spi_write a s.buffer long) r.buffer_size;
      };
      stored =
          rw (take-command_byte spi_write a s.buffer long x)
            (stored_by a s.device r.at_rest (x ∷ []) fits (small, tt));
    }
