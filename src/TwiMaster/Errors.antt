-- ===== src/TwiMaster/Errors.antt =====
-- How a transaction of the TWI master is refused, goes on or ends.
use rtos_hm_board.Prelude.{
  ℕ, ◌+◌, ◌≤◌, ◌<◌, ◌≡◌, ◌≢◌, ◌⊎◌, ◌↔◌, arith, List, true, false, if◌then◌else◌,
}
use rtos_hm_board.Prelude.Bits.{bit_and-zero}
use rtos_hm_board.TwiMaster.{
  TwiMaster, Registers, MasterBits, ok, buffer_overflow, arbitration_lost, bus_error, nack_received,
  fail, flag, write_read, master_ready, error_handler, write_handler, read_handler, interrupt,
  twim_status_ready, twim_status_busy,
}
use rtos_hm_board.TwiMaster.Invariant.{IsValid}

-- `TWI_MasterWriteRead` returns true exactly when the lengths fit the two buffers and the driver
-- is ready, and leaves the driver as it was when it returns false.
pub write_read_accepts :
    (address : ℕ) (bytes : List ℕ) (to_write to_read : ℕ) (t : TwiMaster)
    → (((write_read address bytes to_write to_read t).1 ≡ true)
        ↔ ((to_write ≤ 255) × (to_read ≤ 20) × (t.status ≡ twim_status_ready)))
      × ((write_read address bytes to_write to_read t).1 ≡ false
          → (write_read address bytes to_write to_read t).0 ≡ t)
unfolding write_read
write_read_accepts address bytes to_write to_read t = ground arith

-- `TWI_MasterReady` returns false in every state, ready or busy, since it tests the status by
-- `&` with TWIM_STATUS_READY, which is 0.
pub master_ready-false : (t : TwiMaster) → master_ready t ≡ false
unfolding master_ready
master_ready-false t = rw (bit_and-zero t.status)

module _ (b : MasterBits) (r : Registers) (t : TwiMaster) where
  -- A transaction in progress, of a driver within its invariant, stays in progress after an
  -- interrupt exactly when there is neither arbitration lost nor a bus error, and either it is a
  -- write interrupt that the slave acknowledged with bytes left to write or to read, or it is a
  -- read interrupt after which bytes are left to read.
  pub interrupt_goes_on :
      IsValid t
      → t.status ≡ twim_status_busy
      → ((interrupt b r t).status ≡ twim_status_busy) ↔ (
          (flag r.status b.arblost ≡ false)
          × (flag r.status b.buserr ≡ false)
          × (((flag r.status b.wif ≡ true)
                × (flag r.status b.rxack ≡ false)
                × ((t.bytes_written < t.bytes_to_write) ⊎ (t.bytes_read < t.bytes_to_read)))
              ⊎ ((flag r.status b.wif ≡ false)
                  × (flag r.status b.rif ≡ true)
                  × (t.bytes_read + 1 < t.bytes_to_read))))
  unfolding interrupt error_handler write_handler read_handler
  interrupt_goes_on v busy = ground arith

  -- An interrupt that ends a transaction, of a driver within its invariant, leaves the driver
  -- ready, with the result that names the cause: bus error before lost arbitration, then the write
  -- and the read interrupt, then failure.
  pub interrupt_result :
      IsValid t
      → t.status ≡ twim_status_busy
      → (interrupt b r t).status ≢ twim_status_busy
      → ((interrupt b r t).status ≡ twim_status_ready)
        × ((interrupt b r t).result ≡ (
            if flag r.status b.buserr
            then bus_error
            else (if flag r.status b.arblost
                then arbitration_lost
                else (if flag r.status b.wif
                    then (if flag r.status b.rxack then nack_received else ok)
                    else (if flag r.status b.rif then ok else fail)))))
  unfolding interrupt error_handler write_handler read_handler
  interrupt_result v busy ended = ground arith

  -- For a driver within its invariant, no interrupt reports a full read buffer:
  -- TWIM_RESULT_BUFFER_OVERFLOW is the result after it only if it was the result before.
  pub interrupt_never_overflow :
      IsValid t → t.result ≢ buffer_overflow → (interrupt b r t).result ≢ buffer_overflow
  unfolding interrupt error_handler write_handler read_handler
  interrupt_never_overflow v h = ground arith
