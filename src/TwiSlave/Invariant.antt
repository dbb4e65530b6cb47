-- ===== src/TwiSlave/Invariant.antt =====
-- The representation invariant of `TWI_Slave_t`.
use rtos_hm_board.Prelude.{
  ◌≤◌, ◌<◌, ◌≡◌, ◌⊎◌, ◌↔◌, arith, List, [], ◌∷◌, length, length-set, true, false,
}
use rtos_hm_board.TwiSlave.{
  TwiSlave, Registers, SlaveBits, aborted, flag, address_match_handler, stop_handler, data_handler,
  interrupt, interrupts, twis_status_ready,
}

-- The buffers have their declared sizes, and no counter passes the end of its buffer.
pub record IsValid {E : Type 0} (t : TwiSlave E) : Type 0 where
  pub receive_size : length t.received_data ≡ 72
  pub send_size : length t.send_data ≡ 1
  pub received_in : t.bytes_received ≤ 72
  pub sent_in : t.bytes_sent ≤ 1

module _ {E : Type 0} (b : SlaveBits) (process_data : TwiSlave E → E) where
  -- Whatever the registers and the callback do, an interrupt keeps the invariant.
  pub interrupt-IsValid :
      (r : Registers) {t : TwiSlave E} → IsValid t → IsValid (interrupt b process_data r t)
  unfolding interrupt address_match_handler stop_handler data_handler
  interrupt-IsValid r {t} v = ground (arith, length-set t.received_data t.bytes_received r.received)

  -- Whatever the registers and the callback do, a sequence of interrupts keeps the counters of the
  -- slave within its two buffers, and the buffers at their sizes.
  pub interrupts-IsValid_slave :
      (rs : List Registers) {t : TwiSlave E} → IsValid t → IsValid (interrupts b process_data rs t)
  unfolding interrupts
  interrupts-IsValid_slave [] v = v
  interrupts-IsValid_slave (r ∷ rs) v = interrupts-IsValid_slave rs (interrupt-IsValid r v)

  -- The interrupts that take up a pending abort.
  abbrev pub TakesAbort : Registers → TwiSlave E → Type 0
  TakesAbort r t =
      (flag r.status b.buserr ≡ false)
      × (flag r.status b.coll ≡ false)
      × (((flag r.status b.apif ≡ true) × (flag r.status b.ap ≡ true))
          ⊎ ((flag r.status b.apif ≡ false)
              × (flag r.status b.dif ≡ true)
              × (flag r.status b.dir ≡ false)
              × (t.bytes_received < 72)))

  -- A pending abort is cleared exactly by an address match and by a received byte that fits the
  -- buffer, when there is neither bus error nor collision; either one ends the transaction with
  -- TWIS_RESULT_ABORTED.
  pub interrupt_aborts :
      (r : Registers) (t : TwiSlave E)
      → t.abort ≡ true
      → (((interrupt b process_data r t).abort ≡ false) ↔ TakesAbort r t)
        × (TakesAbort r t
            → ((interrupt b process_data r t).result ≡ aborted)
              × ((interrupt b process_data r t).status ≡ twis_status_ready))
  unfolding interrupt address_match_handler stop_handler data_handler
  interrupt_aborts r t set = ground arith
