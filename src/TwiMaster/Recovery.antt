-- ===== src/TwiMaster/Recovery.antt =====
-- A transaction of the TWI master that fails, and the one after it.
use rtos_hm_board.Prelude.{
  ℕ, ◌*◌, ◌≤◌, ◌<◌, ◌≡◌, ◌⊎◌, ap, ◌∙◌, arith, List, [], ◌∷◌, ◌++◌, length, map, All, true,
  if◌then◌else◌,
}
use rtos_hm_board.Prelude.Slices.{slice}
use rtos_hm_board.TwiMaster.{
  TwiMaster, Registers, MasterBits, Result, ok, arbitration_lost, bus_error, nack_received, flag,
  master_write, interrupt, interrupts, error_handler, write_handler, to_addr, to_data, to_ctrlc,
  twim_status_ready,
}
use rtos_hm_board.TwiMaster.Invariant.{IsValid, interrupts-IsValid}
use rtos_hm_board.TwiMaster.Phases.{IsAcknowledged}
use rtos_hm_board.TwiMaster.Transfer.{interrupts-append, write_transaction}

module _ (b : MasterBits) where
  -- An interrupt for lost arbitration, a bus error or a missing acknowledgement.
  abbrev pub IsFailure : Registers → Type 0
  IsFailure r =
      (flag r.status b.arblost ≡ true)
      ⊎ (flag r.status b.buserr ≡ true)
      ⊎ ((flag r.status b.wif ≡ true) × (flag r.status b.rxack ≡ true))

  -- The result that names the failure.
  abbrev pub cause : Registers → Result
  cause r =
      if flag r.status b.buserr
      then bus_error
      else (if flag r.status b.arblost then arbitration_lost else nack_received)

  interrupt_fails :
      (r : Registers) (t : TwiMaster)
      → IsFailure r
      → ((interrupt b r t).status ≡ twim_status_ready) × ((interrupt b r t).result ≡ cause r)
  unfolding interrupt error_handler write_handler
  interrupt_fails r t fails = ground arith

  -- For a driver within its invariant, in whatever state and after whatever interrupts: one for lost
  -- arbitration, a bus error or a missing acknowledgement leaves it ready, with the result that
  -- names it, a bus error first. A write of 1 to 255 of the given bytes to an address below 128 that
  -- follows is accepted, and after one acknowledged interrupt for the address and one for each byte
  -- it is over: the driver is ready with TWIM_RESULT_OK, and has written to the registers the address
  -- byte, all the bytes from the first on, and STOP.
  pub write_recovers :
      (address : ℕ) (bytes : List ℕ) (n : ℕ) {t : TwiMaster} (before : List Registers)
      (bad : Registers) (acks : List Registers) (last : Registers)
      → IsValid t
      → IsFailure bad
      → address < 128
      → n ≤ length bytes
      → 0 < n
      → n ≤ 255
      → All (IsAcknowledged b) acks
      → IsAcknowledged b last
      → length acks ≡ n
      → let failed = interrupts b (before ++ (bad ∷ [])) t in
        let (t0, accepted) = master_write address bytes n failed in
        let t' = interrupts b (acks ++ (last ∷ [])) t0 in
        (failed.status ≡ twim_status_ready)
        × (failed.result ≡ cause bad)
        × (accepted ≡ true)
        × (t'.status ≡ twim_status_ready)
        × (t'.result ≡ ok)
        × (t'.log
            ≡ failed.log
              ++ (to_addr (address * 2) ∷ map to_data (slice bytes 0 n)
                  ++ (to_ctrlc b.cmd_stop ∷ [])))
  unfolding interrupts
  write_recovers address bytes n {t} before bad acks last v fails small inside pos few ha hl e =
      let split = interrupts-append b before (bad ∷ []) t in
      let (ready, named) = interrupt_fails bad (interrupts b before t) fails in
      let idle = ap (λ (u : TwiMaster). u.status) split ∙ ready in
      let (accepted, over, all_right, log_lem) =
        write_transaction b address bytes n (interrupts-IsValid b (before ++ (bad ∷ [])) v) inside
          idle small acks last pos few ha hl e in
      (idle, ap (λ (u : TwiMaster). u.result) split ∙ named, accepted, over, all_right, log_lem)
