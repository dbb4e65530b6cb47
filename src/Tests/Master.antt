-- ===== src/Tests/Master.antt =====
-- The TWI master on concrete transactions, with the bits of the XMEGA's registers.
use rtos_hm_board.Prelude.{
  ℕ, inl, ◌+◌, ◌*◌, ◌≡◌, ◌≢◌, refl, arith, List, [], ◌∷◌, ◌++◌, replicate, true, map, if◌then◌else◌,
}
use rtos_hm_board.Prelude.Slices.{slice}
use rtos_hm_board.TwiMaster.{
  TwiMaster, Registers, MasterBits, ok, unknown, buffer_overflow, bus_error, arbitration_lost,
  nack_received, fail, flag, write_read, master_write, interrupt, interrupts, error_handler,
  to_addr, to_data, to_ctrlc, twim_status_ready, twim_status_busy,
}
use rtos_hm_board.TwiMaster.Invariant.{IsValid, interrupts-IsValid}
use rtos_hm_board.TwiMaster.Errors.{interrupt_result, interrupt_never_overflow}
use rtos_hm_board.TwiMaster.Phases.{IsAcknowledged, IsReceived, stop}
use rtos_hm_board.TwiMaster.Recovery.{cause, write_recovers}
use rtos_hm_board.TwiMaster.Transfer.{write_transaction, write_read_transaction}

abbrev pub bits : MasterBits
bits = record {
  rien = 0x20;
  wien = 0x10;
  enable = 0x08;
  busstate_mask = 0x03;
  busstate_idle = 0x01;
  arblost = 0x08;
  buserr = 0x04;
  wif = 0x40;
  rif = 0x80;
  rxack = 0x10;
  cmd_stop = 0x03;
  cmd_recvtrans = 0x02;
  ackact = 0x04;
}

abbrev pub master : TwiMaster
master = record {
  address = 0;
  write_data = replicate 255 0;
  read_data = replicate 20 0;
  bytes_to_write = 0;
  bytes_to_read = 0;
  bytes_written = 0;
  bytes_read = 0;
  status = 0;
  result = unknown;
  log = [];
}

pub master-IsValid : IsValid master
master-IsValid = record {
  write_size = refl;
  read_size = refl;
  to_write_in = omega arith;
  to_read_in = omega arith;
  written_in = omega arith;
  read_in = omega arith;
  address_in = omega arith;
}

-- A transaction that has sent one of two bytes and wants one byte back.
abbrev busy : TwiMaster
busy = record master {
  status = 1;
  address = 84;
  bytes_to_write = 2;
  bytes_to_read = 1;
  bytes_written = 1;
}

busy-IsValid : IsValid busy
busy-IsValid = record {
  write_size = refl;
  read_size = refl;
  to_write_in = omega arith;
  to_read_in = omega arith;
  written_in = omega arith;
  read_in = omega arith;
  address_in = omega arith;
}

-- The slave has acknowledged; it has sent 0x55; the bus has an error.
abbrev pub acked : Registers
acked = record { status = 0x62; received = 0 }

abbrev got : Registers
got = record { status = 0xa2; received = 0x55 }

abbrev broken : Registers
broken = record { status = 0x4c; received = 0 }

pub acked-IsAcknowledged : IsAcknowledged bits acked
acked-IsAcknowledged = record {
  kept_arbitration = refl;
  no_error = refl;
  write_flag = refl;
  ack = refl;
}

got-IsReceived : IsReceived bits got
got-IsReceived = record {
  kept_arbitration = refl;
  no_error = refl;
  no_write_flag = refl;
  read_flag = refl;
}

abbrev two : List ℕ
two = 7 ∷ 9 ∷ []

interrupts-IsValid_example : IsValid (interrupts bits (acked ∷ acked ∷ got ∷ broken ∷ []) busy)
interrupts-IsValid_example =
    interrupts-IsValid bits (acked ∷ acked ∷ got ∷ broken ∷ []) busy-IsValid

broken_ends : (interrupt bits broken busy).status ≢ twim_status_busy
unfolding interrupt error_handler
broken_ends = ground arith

interrupt_result_example :
    ((interrupt bits broken busy).status ≡ twim_status_ready)
    × ((interrupt bits broken busy).result ≡ (
        if flag broken.status bits.buserr
        then bus_error
        else (if flag broken.status bits.arblost
            then arbitration_lost
            else (if flag broken.status bits.wif
                then (if flag broken.status bits.rxack then nack_received else ok)
                else (if flag broken.status bits.rif then ok else fail)))))
interrupt_result_example = interrupt_result bits broken busy busy-IsValid refl broken_ends

not_overflow : busy.result ≢ buffer_overflow
not_overflow e = absurd (cc)

interrupt_never_overflow_example : (interrupt bits got busy).result ≢ buffer_overflow
interrupt_never_overflow_example = interrupt_never_overflow bits got busy busy-IsValid not_overflow

write_transaction_example :
    let (t0, accepted) = master_write 42 two 2 master in
    let t' = interrupts bits (acked ∷ acked ∷ acked ∷ []) t0 in
    (accepted ≡ true)
    × (t'.status ≡ twim_status_ready)
    × (t'.result ≡ ok)
    × (t'.log
        ≡ [] ++ (to_addr (42 * 2) ∷ map to_data (slice two 0 2) ++ (to_ctrlc bits.cmd_stop ∷ [])))
write_transaction_example =
    write_transaction bits 42 two 2 master-IsValid (omega arith) refl (omega arith)
      (acked ∷ acked ∷ []) acked (omega arith) (omega arith)
      (acked-IsAcknowledged, (acked-IsAcknowledged, tt)) acked-IsAcknowledged refl

write_read_transaction_example :
    let (t0, accepted) = write_read 42 two 2 2 master in
    let t' = interrupts bits (acked ∷ acked ∷ acked ∷ got ∷ got ∷ []) t0 in
    (accepted ≡ true)
    × (t'.status ≡ twim_status_ready)
    × (t'.result ≡ ok)
    × (slice t'.read_data 0 2 ≡ map (λ q. q.received) (got ∷ got ∷ []))
    × (t'.log
        ≡ []
          ++ ((to_addr (42 * 2) ∷ map to_data (slice two 0 2))
              ++ (to_addr (42 * 2 + 1)
                  ∷ (replicate 1 (to_ctrlc bits.cmd_recvtrans) ++ (stop bits ∷ [])))))
write_read_transaction_example =
    write_read_transaction bits 42 two 2 master-IsValid (omega arith) refl (omega arith)
      (acked ∷ acked ∷ []) acked got (got ∷ []) (omega arith) (omega arith) (omega arith)
      (acked-IsAcknowledged, (acked-IsAcknowledged, tt)) acked-IsAcknowledged
      (got-IsReceived, (got-IsReceived, tt)) refl

-- A transaction in progress is broken off by an error of the bus; the two bytes are sent again.
write_recovers_example :
    let failed = interrupts bits ((acked ∷ []) ++ (broken ∷ [])) busy in
    let (t0, accepted) = master_write 42 two 2 failed in
    let t' = interrupts bits ((acked ∷ acked ∷ []) ++ (acked ∷ [])) t0 in
    (failed.status ≡ twim_status_ready)
    × (failed.result ≡ cause bits broken)
    × (accepted ≡ true)
    × (t'.status ≡ twim_status_ready)
    × (t'.result ≡ ok)
    × (t'.log
        ≡ failed.log
          ++ (to_addr (42 * 2) ∷ map to_data (slice two 0 2) ++ (to_ctrlc bits.cmd_stop ∷ [])))
write_recovers_example =
    write_recovers bits 42 two 2 (acked ∷ []) broken (acked ∷ acked ∷ []) acked busy-IsValid
      (inl refl) (omega arith) (omega arith) (omega arith) (omega arith)
      (acked-IsAcknowledged, (acked-IsAcknowledged, tt)) acked-IsAcknowledged refl
