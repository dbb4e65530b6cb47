-- ===== src/TwiSlave.antt =====
-- MyDrivers/twi_slave_driver.c and .h: the interrupt-driven TWI (I2C) slave.
pub mod Invariant
pub mod Receive
use rtos_hm_board.Prelude.{
  ℕ, zero, suc, ◌+◌, ◌-◌, ◌*◌, ◌%◌, ◌^◌, ◌==◌, ltb, if◌then◌else◌, Bool, true, false, not, ◌&&◌,
  List, [], ◌∷◌, ◌++◌, bit_and, bit_or, set, get_or,
}

-- The masks and codes that the compiler's device header gives for the TWI slave.
pub record SlaveBits : Type 0 where
  pub dien : ℕ
  pub apien : ℕ
  pub enable : ℕ
  pub pien : ℕ
  pub buserr : ℕ
  pub coll : ℕ
  pub apif : ℕ
  pub ap : ℕ
  pub dif : ℕ
  pub dir : ℕ
  pub rxack : ℕ
  pub cmd_comptrans : ℕ
  pub cmd_response : ℕ
  pub ackact : ℕ

abbrev pub twis_status_ready : ℕ
twis_status_ready = 0

abbrev pub twis_status_busy : ℕ
twis_status_busy = 1

abbrev pub twis_receive_buffer_size : ℕ
twis_receive_buffer_size = 72

abbrev pub twis_send_buffer_size : ℕ
twis_send_buffer_size = 1

-- `TWIS_RESULT_t`
pub data Result : Type 0 where
  unknown ok buffer_overflow transmit_collision bus_error fail aborted : Result

-- A write to a register of the module, as the bus sees it.
pub data RegisterWrite : Type 0 where
  to_addr to_ctrlb to_status to_data : ℕ → RegisterWrite

-- `TWI_Slave_t`, with the register CTRLA, which keeps what is written to it, the other register
-- writes made so far, and what `Process_Data` works on besides.
pub record TwiSlave (E : Type 0) : Type 0 where
  pub received_data : List ℕ
  pub send_data : List ℕ
  pub bytes_received : ℕ
  pub bytes_sent : ℕ
  pub status : ℕ
  pub result : Result
  pub abort : Bool
  pub ctrla : ℕ
  pub log : List RegisterWrite
  pub env : E

-- What the registers STATUS and DATA hold throughout one interrupt.
pub record Registers : Type 0 where
  pub status : ℕ
  pub received : ℕ

abbrev pub flag : ℕ → ℕ → Bool
flag register mask = not (bit_and register mask == 0)

-- `~` on a byte
abbrev pub complement : ℕ → ℕ
complement m = 255 - m

-- `TWI_SlaveInitializeDriver`; the interface and the callback are the section's below.
unfoldable pub initialize_driver : {E : Type 0} → TwiSlave E → TwiSlave E
initialize_driver t = record t {
  bytes_received = 0;
  bytes_sent = 0;
  status = twis_status_ready;
  result = unknown;
  abort = false;
}

-- The parameter is what the callback `Process_Data` makes of the driver's state.
module _ {E : Type 0} (b : SlaveBits) (process_data : TwiSlave E → E) where
  abbrev pub emit : RegisterWrite → TwiSlave E → TwiSlave E
  emit w t = record t { log = t.log ++ (w ∷ []) }

  -- `TWI_SlaveInitializeModule`
  unfoldable pub initialize_module : ℕ → ℕ → TwiSlave E → TwiSlave E
  initialize_module address int_level t =
      emit (to_addr (address * 2 % 2 ^ 8))
        (record t { ctrla = bit_or (bit_or (bit_or int_level b.dien) b.apien) b.enable })

  -- `TWI_SlaveTransactionFinished`
  unfoldable pub transaction_finished : Result → TwiSlave E → TwiSlave E
  transaction_finished r t =
      let done : TwiSlave E = record t { result = r; status = twis_status_ready } in
      record done { env = process_data done }

  -- `TWI_SlaveAddressMatchHandler`
  unfoldable pub address_match_handler : TwiSlave E → TwiSlave E
  unfolding transaction_finished
  address_match_handler t =
      if t.abort
      then record (transaction_finished aborted (emit (to_ctrlb b.cmd_comptrans) t)) {
        abort = false;
      }
      else emit (to_ctrlb b.cmd_response) (record t {
        status = twis_status_busy;
        result = unknown;
        ctrla = bit_and t.ctrla (complement b.pien);
        bytes_received = 0;
        bytes_sent = 0;
      })

  -- `TWI_SlaveStopHandler`
  unfoldable pub stop_handler : Registers → TwiSlave E → TwiSlave E
  unfolding transaction_finished
  stop_handler r t = transaction_finished ok (
      emit (to_status (bit_or r.status b.apif))
        (record t { ctrla = bit_and t.ctrla (complement b.pien) }))

  -- `TWI_SlaveReadHandler`: the master writes, and a byte is received.
  unfoldable pub read_handler : Registers → TwiSlave E → TwiSlave E
  unfolding transaction_finished
  read_handler r t =
      let enabled : TwiSlave E = record t { ctrla = bit_or t.ctrla b.pien } in
      let stored : TwiSlave E = record enabled {
        received_data = set t.received_data t.bytes_received r.received;
        bytes_received = (t.bytes_received + 1) % 2 ^ 8;
      } in
      if ltb t.bytes_received twis_receive_buffer_size
      then (if t.abort
          then record (transaction_finished aborted (emit (to_ctrlb b.cmd_comptrans) stored)) {
            abort = false;
          }
          else emit (to_ctrlb b.cmd_response) stored)
      else transaction_finished buffer_overflow
          (emit (to_ctrlb (bit_or b.ackact b.cmd_comptrans)) enabled)

  -- `TWI_SlaveWriteHandler`: the master reads, and a byte is sent.
  unfoldable pub write_handler : Registers → TwiSlave E → TwiSlave E
  unfolding transaction_finished
  write_handler r t =
      if ltb 0 t.bytes_sent && flag r.status b.rxack
      then transaction_finished ok (emit (to_ctrlb b.cmd_comptrans) t)
      else (if ltb t.bytes_sent twis_send_buffer_size
          then emit (to_ctrlb b.cmd_response)
              (record (emit (to_data (get_or t.send_data t.bytes_sent 0)) t) {
                bytes_sent = (t.bytes_sent + 1) % 2 ^ 8;
              })
          else transaction_finished buffer_overflow (emit (to_ctrlb b.cmd_comptrans) t))

  -- `TWI_SlaveDataHandler`
  unfoldable pub data_handler : Registers → TwiSlave E → TwiSlave E
  unfolding read_handler write_handler
  data_handler r t = if flag r.status b.dir then write_handler r t else read_handler r t

  -- `TWI_SlaveInterruptHandler`
  unfoldable pub interrupt : Registers → TwiSlave E → TwiSlave E
  unfolding transaction_finished
  interrupt r t =
      if flag r.status b.buserr
      then record t {
        bytes_received = 0;
        bytes_sent = 0;
        result = bus_error;
        status = twis_status_ready;
      }
      else (if flag r.status b.coll
          then record t {
            bytes_received = 0;
            bytes_sent = 0;
            result = transmit_collision;
            status = twis_status_ready;
          }
          else (if flag r.status b.apif && flag r.status b.ap
              then address_match_handler t
              else (if flag r.status b.apif
                  then stop_handler r t
                  else (if flag r.status b.dif
                      then data_handler r t
                      else transaction_finished fail t))))

  -- One interrupt for each entry.
  unfoldable pub interrupts : List Registers → TwiSlave E → TwiSlave E
  interrupts [] t = t
  interrupts (r ∷ rs) t = interrupts rs (interrupt r t)
