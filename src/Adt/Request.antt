-- ===== src/Adt/Request.antt =====
-- A request of the temperature from MyDrivers/ADT7420.c over the bus.
use rtos_hm_board.Prelude.{
  ℕ, ◌+◌, ◌*◌, ◌^◌, ◌<◌, ◌≡◌, refl, arith, List, [], ◌∷◌, ◌++◌, length, length-set, get_or, set, ap,
  ◌∙◌,
}
use rtos_hm_board.Prelude.Slices.{slice}
use rtos_hm_board.TwiMaster.{MasterBits, Registers, to_addr, to_data, to_ctrlc, twim_status_ready}
use rtos_hm_board.TwiMaster.Invariant.{IsValid}
use rtos_hm_board.TwiMaster.Phases.{IsAcknowledged, IsReceived, stop}
use rtos_hm_board.TwiMaster.Transfer.{write_read_transaction}
use rtos_hm_board.SpiMemory.Reads.{join_bytes}
use rtos_hm_board.Adt.{Adt, adt_get_temperature, adt_i2c_address, adt_reg_temperature}

-- From a ready driver within its invariant and with its write buffer of 8 bytes, when the sensor
-- acknowledges its address and the register number and then sends two bytes, `ADT_get_temperature`
-- returns the first byte times 256 plus the second, and the driver is ready again. On the bus it
-- has sent the address for writing, the register number 0, the address for reading, one
-- acknowledgement, and one NACK with STOP.
pub adt_get_temperature_lem :
    (b : MasterBits) (a : Adt) (address_ack register_ack high low : Registers)
    → IsValid a.master
    → length a.buffer ≡ 8
    → a.master.status ≡ twim_status_ready
    → IsAcknowledged b address_ack
    → IsAcknowledged b register_ack
    → IsReceived b high
    → IsReceived b low
    → high.received < 2 ^ 8
    → low.received < 2 ^ 8
    → let (temp, a') = adt_get_temperature b (address_ack ∷ register_ack ∷ high ∷ low ∷ []) a in
      (temp ≡ high.received * 2 ^ 8 + low.received)
      × (a'.master.status ≡ twim_status_ready)
      × (a'.master.log
          ≡ a.master.log
            ++ (to_addr 0x90 ∷ to_data 0 ∷ to_addr 0x91 ∷ to_ctrlc b.cmd_recvtrans ∷ stop b ∷ []))
unfolding adt_get_temperature slice
adt_get_temperature_lem b a address_ack register_ack high low v size idle ha hr hh hl high_in
      low_in =
    let buffer = set a.buffer 0 adt_reg_temperature in
    let done =
      write_read_transaction b adt_i2c_address buffer 1 v
        (omega (arith, length-set a.buffer 0 adt_reg_temperature)) idle (omega arith)
        (address_ack ∷ []) register_ack high (low ∷ []) (omega arith) (omega arith) (omega arith)
        (ha, tt) hr (hh, (hl, tt)) refl in
    (
      rw (ap (λ l. get_or l 0 0) done.3, ap (λ l. get_or l 1 0) done.3)
          (join_bytes high.received low.received high_in low_in),
      done.1,
      done.4
          ∙ ap
              (λ x.
                a.master.log
                ++ (to_addr 0x90
                    ∷ to_data x
                    ∷ to_addr 0x91
                    ∷ to_ctrlc b.cmd_recvtrans
                    ∷ stop b
                    ∷ []))
              (first_set a.buffer size),
    )
  where
    first_set : (xs : List ℕ) → length xs ≡ 8 → get_or (set xs 0 0) 0 0 ≡ 0
    first_set [] e = refl
    first_set (x ∷ xs) e = refl
