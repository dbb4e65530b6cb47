-- ===== src/TwiMaster.antt =====
-- MyDrivers/twi_master_driver.c and .h: the interrupt-driven TWI (I2C) master.
pub mod Invariant
pub mod Errors
pub mod Slices
pub mod Phases
pub mod Transfer
pub mod Recovery
use rtos_hm_board.Prelude.{
  ℕ, zero, suc, ◌+◌, ◌*◌, ◌%◌, ◌^◌, ◌==◌, ltb, if◌then◌else◌, Bool, true, false, not, ◌||◌, List,
  [], ◌∷◌, ◌++◌, bit_and, bit_or, set, get_or,
}

-- The masks and codes that the compiler's device header gives for the TWI master.
pub record MasterBits : Type 0 where
  pub rien : ℕ
  pub wien : ℕ
  pub enable : ℕ
  pub busstate_mask : ℕ
  pub busstate_idle : ℕ
  pub arblost : ℕ
  pub buserr : ℕ
  pub wif : ℕ
  pub rif : ℕ
  pub rxack : ℕ
  pub cmd_stop : ℕ
  pub cmd_recvtrans : ℕ
  pub ackact : ℕ

abbrev pub twim_status_ready : ℕ
twim_status_ready = 0

abbrev pub twim_status_busy : ℕ
twim_status_busy = 1

abbrev pub twim_write_buffer_size : ℕ
twim_write_buffer_size = 255

abbrev pub twim_read_buffer_size : ℕ
twim_read_buffer_size = 20

-- `TWIM_RESULT_t`
pub data Result : Type 0 where
  unknown ok buffer_overflow arbitration_lost bus_error nack_received fail : Result

-- A write to a register of the module, as the bus sees it.
pub data RegisterWrite : Type 0 where
  to_ctrla to_baud to_status to_addr to_data to_ctrlc : ℕ → RegisterWrite

-- `TWI_Master_t`, with the register writes made so far in the place of `interface`.
pub record TwiMaster : Type 0 where
  pub address : ℕ
  pub write_data : List ℕ
  pub read_data : List ℕ
  pub bytes_to_write : ℕ
  pub bytes_to_read : ℕ
  pub bytes_written : ℕ
  pub bytes_read : ℕ
  pub status : ℕ
  pub result : Result
  pub log : List RegisterWrite

-- What the registers STATUS and DATA hold throughout one interrupt.
pub record Registers : Type 0 where
  pub status : ℕ
  pub received : ℕ

abbrev pub flag : ℕ → ℕ → Bool
flag register mask = not (bit_and register mask == 0)

abbrev pub emit : RegisterWrite → TwiMaster → TwiMaster
emit w t = record t { log = t.log ++ (w ∷ []) }

-- `TWI_MasterTransactionFinished`
abbrev pub transaction_finished : Result → TwiMaster → TwiMaster
transaction_finished r t = record t { result = r; status = twim_status_ready }

-- `TWI_MasterReady`
unfoldable pub master_ready : TwiMaster → Bool
master_ready t = not (bit_and t.status twim_status_ready == 0)

-- The loop that fills the write buffer, with `n` rounds left at index `i`.
unfoldable pub copy : ℕ → ℕ → List ℕ → List ℕ → List ℕ
copy zero i from to = to
copy (suc n) i from to = copy n ((i + 1) % 2 ^ 8) from (set to i (get_or from i 0))

-- The start of a transaction: the first address byte, with the read bit or without it.
unfoldable pub start : TwiMaster → TwiMaster
start t =
    if ltb 0 t.bytes_to_write
    then emit (to_addr (bit_and t.address 0xfe)) t
    else (if ltb 0 t.bytes_to_read then emit (to_addr (bit_or t.address 0x01)) t else t)

-- `TWI_MasterWriteRead`
unfoldable pub write_read : ℕ → List ℕ → ℕ → ℕ → TwiMaster → TwiMaster × Bool
unfolding start
write_read address bytes to_write to_read t =
    if ltb twim_write_buffer_size to_write
    then (t, false)
    else (if ltb twim_read_buffer_size to_read
        then (t, false)
        else (if t.status == twim_status_ready
            then (
              start (record t {
                status = twim_status_busy;
                result = unknown;
                address = address * 2 % 2 ^ 8;
                write_data = copy to_write 0 bytes t.write_data;
                bytes_to_write = to_write;
                bytes_to_read = to_read;
                bytes_written = 0;
                bytes_read = 0;
              }),
              true,
            )
            else (t, false)))

-- `TWI_MasterWrite`
unfoldable pub master_write : ℕ → List ℕ → ℕ → TwiMaster → TwiMaster × Bool
master_write address bytes to_write t = write_read address bytes to_write 0 t

-- `TWI_MasterRead`
unfoldable pub master_read : ℕ → ℕ → TwiMaster → TwiMaster × Bool
master_read address to_read t = write_read address [] 0 to_read t

module _ (b : MasterBits) where
  -- `TWI_MasterInit`
  unfoldable pub master_init : ℕ → ℕ → TwiMaster → TwiMaster
  master_init int_level baud t = emit (to_status b.busstate_idle) (
      emit (to_baud baud)
        (emit (to_ctrla (bit_or (bit_or (bit_or int_level b.rien) b.wien) b.enable)) t))

  -- `TWI_MasterState`, of the value of STATUS.
  unfoldable pub master_state : Registers → ℕ
  master_state r = bit_and r.status b.busstate_mask

  -- `TWI_MasterArbitrationLostBusErrorHandler`
  unfoldable pub error_handler : Registers → TwiMaster → TwiMaster
  error_handler r t =
      let failed : TwiMaster = record t {
        result = if flag r.status b.buserr then bus_error else arbitration_lost;
      } in
      record (emit (to_status (bit_or r.status b.arblost)) failed) { status = twim_status_ready }

  -- `TWI_MasterWriteHandler`
  unfoldable pub write_handler : Registers → TwiMaster → TwiMaster
  write_handler r t =
      if flag r.status b.rxack
      then record (emit (to_ctrlc b.cmd_stop) t) {
        result = nack_received;
        status = twim_status_ready;
      }
      else (if ltb t.bytes_written t.bytes_to_write
          then record (emit (to_data (get_or t.write_data t.bytes_written 0)) t) {
            bytes_written = (t.bytes_written + 1) % 2 ^ 8;
          }
          else (if ltb t.bytes_read t.bytes_to_read
              then emit (to_addr (bit_or t.address 0x01)) t
              else transaction_finished ok (emit (to_ctrlc b.cmd_stop) t)))

  -- The first half of `TWI_MasterReadHandler`: a byte is fetched, if there is room for it.
  unfoldable pub fetch : Registers → TwiMaster → TwiMaster
  fetch r t =
      if ltb t.bytes_read twim_read_buffer_size
      then record t {
        read_data = set t.read_data t.bytes_read r.received;
        bytes_read = (t.bytes_read + 1) % 2 ^ 8;
      }
      else transaction_finished buffer_overflow (emit (to_ctrlc b.cmd_stop) t)

  -- The second half, which runs in both cases of the first.
  unfoldable pub acknowledge : TwiMaster → TwiMaster
  acknowledge t =
      if ltb t.bytes_read t.bytes_to_read
      then emit (to_ctrlc b.cmd_recvtrans) t
      else transaction_finished ok (emit (to_ctrlc (bit_or b.ackact b.cmd_stop)) t)

  -- `TWI_MasterReadHandler`
  unfoldable pub read_handler : Registers → TwiMaster → TwiMaster
  unfolding fetch acknowledge
  read_handler r t = acknowledge (fetch r t)

  -- `TWI_MasterInterruptHandler`
  unfoldable pub interrupt : Registers → TwiMaster → TwiMaster
  interrupt r t =
      if flag r.status b.arblost || flag r.status b.buserr
      then error_handler r t
      else (if flag r.status b.wif
          then write_handler r t
          else (if flag r.status b.rif then read_handler r t else transaction_finished fail t))

  -- One interrupt for each entry.
  unfoldable pub interrupts : List Registers → TwiMaster → TwiMaster
  interrupts [] t = t
  interrupts (r ∷ rs) t = interrupts rs (interrupt r t)
