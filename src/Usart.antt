-- ===== src/Usart.antt =====
-- MyDrivers/usart_driver_RTOS.c: a serial line whose bytes wait in two queues of the RTOS.
pub mod Laws
pub mod Interleaving
pub mod Drain
pub mod Start
pub mod Receive
use rtos_hm_board.Prelude.{
  ℕ, zero, suc, ◌+◌, ◌-◌, ◌*◌, ◌/◌, ◌%◌, ◌^◌, ◌==◌, if◌then◌else◌, Bool, true, false, not, bit_and,
  bit_or, List, [], ◌∷◌, ◌++◌, Option, none, some,
}
use rtos_hm_board.Prelude.Fields.{set_field, complement}
use rtos_hm_board.Port.{Port, PortBits, configure_pins, set_output, set_input}

-- The queues of FreeRTOS, of bytes. A number of ticks is the time to wait; the functions for
-- interrupts also say whether a task of higher priority has woken.
pub record ByteQueue : Type 1 where
  pub Queue : Type 0
  pub create : ℕ → Queue
  pub send_to_back : ℕ → ℕ → Queue → Queue × Bool
  pub send_from_isr : ℕ → Queue → Queue × Bool
  pub receive : ℕ → Queue → Option (ℕ × Queue)
  pub receive_from_isr : Queue → Option (ℕ × Queue × Bool)

-- The masks and codes of the compiler's device header; `bscale0` is a position.
pub record UsartBits : Type 0 where
  pub dreintlvl : ℕ
  pub dre_off : ℕ
  pub dre_lo : ℕ
  pub rxcintlvl : ℕ
  pub rxc_lo : ℕ
  pub rxen : ℕ
  pub txen : ℕ
  pub chsize_8bit : ℕ
  pub pmode_disabled : ℕ
  pub sbmode : ℕ
  pub bscale0 : ℕ

-- The registers of a module that the code writes; `sent` are the bytes written to DATA.
pub record Registers : Type 0 where
  pub ctrla : ℕ
  pub ctrlb : ℕ
  pub ctrlc : ℕ
  pub baudctrla : ℕ
  pub baudctrlb : ℕ
  pub sent : List ℕ

-- `UsartBuffer`, with the registers of the module that it points to.
pub record UsartBuffer (q : ByteQueue) : Type 0 where
  pub usart : Registers
  pub dre_int_level : ℕ
  pub queue_rx : q.Queue
  pub queue_tx : q.Queue

module _ (q : ByteQueue) (b : UsartBits) where
  -- The call of `xQueueSendToBack` in `usartBufferPutByte`.
  abbrev pub queue_byte : ℕ → ℕ → UsartBuffer q → UsartBuffer q × Bool
  queue_byte byte ticks s =
      let (u, success) = q.send_to_back byte ticks s.queue_tx in
      (record s { queue_tx = u }, success)

  -- The value of CTRLA that was read, with the level of the interrupt put in, is written back.
  abbrev pub write_level : ℕ → ℕ → UsartBuffer q → UsartBuffer q
  write_level temp level s = record s {
    usart = record s.usart { ctrla = set_field 8 temp b.dreintlvl level };
  }

  -- `usartBufferPutByte`
  unfoldable pub put_byte : ℕ → ℕ → UsartBuffer q → UsartBuffer q
  put_byte byte ticks s =
      let (s', success) = queue_byte byte ticks s in
      if success then write_level s'.usart.ctrla s'.dre_int_level s' else s'

  -- `usartBufferPutString`, of a text without its terminating zero.
  unfoldable pub put_string : List ℕ → ℕ → UsartBuffer q → UsartBuffer q
  put_string [] ticks s = s
  put_string (c ∷ cs) ticks s = put_string cs ticks (put_byte c ticks s)

  -- `usartBufferPutInt`, where `itoa` is the C library's.
  unfoldable pub put_int : (ℕ → ℕ → List ℕ) → ℕ → ℕ → ℕ → UsartBuffer q → UsartBuffer q
  put_int itoa value radix ticks s = put_string (itoa value radix) ticks s

  -- `usartBufferGetByte`
  unfoldable pub get_byte : ℕ → UsartBuffer q → Option (ℕ × UsartBuffer q)
  get_byte ticks s = elim (q.receive ticks s.queue_rx) [
    | none ↦ none
    | some (byte, u) ↦ some (byte, record s { queue_rx = u })
  ]

  -- `USART_RXComplete`, with the byte that DATA holds.
  unfoldable pub rx_complete : ℕ → UsartBuffer q → UsartBuffer q × Bool
  rx_complete byte s =
      let (u, woken) = q.send_from_isr byte s.queue_rx in (record s { queue_rx = u }, woken)

  -- `USART_DataRegEmpty`. With an empty queue its result is not set.
  unfoldable pub data_reg_empty : UsartBuffer q → UsartBuffer q × Option Bool
  data_reg_empty s = elim (q.receive_from_isr s.queue_tx) [
    | none ↦ (write_level s.usart.ctrla b.dre_off s, none)
    | some (byte, u, woken) ↦ (
      record s { queue_tx = u; usart = record s.usart { sent = s.usart.sent ++ (byte ∷ []) } },
      some woken,
    )
  ]

  -- `USART_Baudrate_Set`; `scale` is the pattern of an `int`.
  unfoldable pub baudrate_set : ℕ → ℕ → Registers → Registers
  baudrate_set bsel scale r = record r {
    baudctrla = bsel % 2 ^ 8;
    baudctrlb = bit_or (scale * 2 ^ b.bscale0 % 2 ^ 16) (bsel / 2 ^ 8) % 2 ^ 8;
  }

  -- The `switch` on `Baudrate_enum`.
  unfoldable pub baudrate : ℕ → Registers → Registers
  baudrate rate r =
      if rate == 5
      then baudrate_set 2094 (2 ^ 16 - 7) r
      else (if rate == 4
          then baudrate_set 2158 (2 ^ 16 - 6) r
          else (if rate == 3
              then baudrate_set 3269 (2 ^ 16 - 6) r
              else (if rate == 2
                  then baudrate_set 3301 (2 ^ 16 - 5) r
                  else baudrate_set 3317 (2 ^ 16 - 4) r)))

  -- The buffer that `usartBufferInitialize` fills in, and what it writes to the module.
  unfoldable pub new_buffer : ℕ → ℕ → Registers → UsartBuffer q
  new_buffer rate size r =
      let format = record r { ctrlc = bit_or (bit_or b.chsize_8bit b.pmode_disabled) b.sbmode } in
      let level = record format { ctrla = set_field 8 format.ctrla b.rxcintlvl b.rxc_lo } in
      let clocked = baudrate rate level in
      record {
        usart = record clocked { ctrlb = bit_or (bit_or clocked.ctrlb b.rxen) b.txen };
        dre_int_level = b.dre_lo;
        queue_rx = q.create size;
        queue_tx = q.create size;
      }

-- The modules that `usartBufferInitialize` tells apart; `other` is any other pointer.
pub data UsartModule : Type 0 where
  usartc0 usartd0 usarte0 other : UsartModule

-- The globals `usartBufferC`, `usartBufferD` and `usartBufferE`, and the ports. The pointer that is
-- returned is the global that has been set.
pub record Lines (q : ByteQueue) : Type 0 where
  pub buffer_c : Option (UsartBuffer q)
  pub buffer_d : Option (UsartBuffer q)
  pub buffer_e : Option (UsartBuffer q)
  pub port_c : Port
  pub port_d : Port
  pub port_e : Port

module _ (q : ByteQueue) (b : UsartBits) (pb : PortBits) where
  -- The pins of the line: pin 3 is the output and pin 2 the input.
  abbrev pub configure_port : Port → Port
  configure_port p =
      configure_pins pb pb.pin3 0 0 pb.opc_pullup pb.isc_bothedges
        (set_input pb.pin2 (set_output pb.pin3 p))

  -- `usartBufferInitialize`, where the memory for the buffer is there. For another module the code
  -- goes on with pointers that it has not set, which is `none`.
  unfoldable pub usart_buffer_initialize :
      UsartModule → ℕ → ℕ → Registers → Lines q → Option (Lines q)
  usart_buffer_initialize usartc0 rate size r l =
      some (record l {
        buffer_c = some (new_buffer q b rate size r);
        port_c = configure_port l.port_c;
      })
  usart_buffer_initialize usartd0 rate size r l =
      some (record l {
        buffer_d = some (new_buffer q b rate size r);
        port_d = configure_port l.port_d;
      })
  usart_buffer_initialize usarte0 rate size r l =
      some (record l {
        buffer_e = some (new_buffer q b rate size r);
        port_e = configure_port l.port_e;
      })
  usart_buffer_initialize other rate size r l = none
