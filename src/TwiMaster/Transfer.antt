-- ===== src/TwiMaster/Transfer.antt =====
-- Whole transactions of the TWI master: from the call that starts one to the interrupt that ends it.
use rtos_hm_board.Prelude.{
  ℕ, ◌+◌, ◌*◌, ◌/◌, ◌%◌, ◌^◌, ◌≤◌, ◌<◌, ◌≡◌, refl, arith, List, [], ◌∷◌, ◌++◌, map, true, length,
  bit_and, bit_or, ap, ◌∙◌, sym, replicate, length-map, All,
}
use rtos_hm_board.Prelude.Bits.{bit_and-even, bit_and_seven_ones, bit_or-join}
use mathlib.Core.List.{append_assoc}
use rtos_hm_board.TwiMaster.{
  TwiMaster, Registers, MasterBits, to_addr, to_data, to_ctrlc, ok, unknown, copy, start,
  write_read, master_write, interrupt, interrupts, twim_status_ready, twim_status_busy,
}
use rtos_hm_board.TwiMaster.Invariant.{IsValid}
use rtos_hm_board.Prelude.Slices.{slice, put, slice-put}
use rtos_hm_board.TwiMaster.Slices.{slice-copy}
use rtos_hm_board.TwiMaster.Phases.{
  IsAcknowledged, IsReceived, send_bytes, finish_writing, turn_around, receive_bytes, stop,
}

-- The address byte: seven bits of address, then the direction.
write_address : (a : ℕ) → a < 128 → bit_and (a * 2 % 2 ^ 8) 0xfe ≡ a * 2
write_address a h =
    ap (λ t. bit_and t 0xfe) doubled
    ∙ bit_and-even (2 * a) 127
    ∙ omega (arith, bit_and_seven_ones (2 * a / 2))
  where
    doubled : a * 2 % 2 ^ 8 ≡ 2 * a
    doubled = omega arith

read_address : (a : ℕ) → a < 128 → bit_or (a * 2 % 2 ^ 8) 0x01 ≡ a * 2 + 1
read_address a h = ap (λ t. bit_or t 0x01) doubled ∙ bit_or-join 1 a 1 (omega arith)
  where
    doubled : a * 2 % 2 ^ 8 ≡ a * 2 ^ 1
    doubled = omega arith

pub interrupts-append :
    (b : MasterBits) (rs qs : List Registers) (t : TwiMaster)
    → interrupts b (rs ++ qs) t ≡ interrupts b qs (interrupts b rs t)
unfolding interrupts
interrupts-append b [] qs t = refl
interrupts-append b (r ∷ rs) qs t = interrupts-append b rs qs (interrupt b r t)

module _ (b : MasterBits) (address : ℕ) (bytes : List ℕ) (n to_read : ℕ) (t : TwiMaster) where
  -- The driver after `TWI_MasterWriteRead` has accepted a transaction that begins with a write.
  abbrev started : TwiMaster
  started = record t {
    status = twim_status_busy;
    result = unknown;
    address = address * 2 % 2 ^ 8;
    write_data = copy n 0 bytes t.write_data;
    bytes_to_write = n;
    bytes_to_read = to_read;
    bytes_written = 0;
    bytes_read = 0;
    log = t.log ++ (to_addr (address * 2) ∷ []);
  }

  module _ (v : IsValid t) (idle : t.status ≡ twim_status_ready) (small : address < 128)
      (some_bytes : 0 < n) (few_bytes : n ≤ 255) (few : to_read ≤ 20) where
    write_read-started : write_read address bytes n to_read t ≡ (started, true)
    unfolding write_read start
    write_read-started = ground (arith, write_address address small)

    -- When every byte has been acknowledged, all have been sent.
    abbrev written : TwiMaster
    written = record started {
      bytes_written = n;
      log = t.log ++ (to_addr (address * 2) ∷ map to_data (slice bytes 0 n));
    }

    interrupts-written :
        (acks : List Registers)
        → All (IsAcknowledged b) acks
        → length acks ≡ n
        → interrupts b acks started ≡ written
    interrupts-written acks a e =
        send_bytes b acks started a (omega arith) few_bytes
        ∙ ap (λ l. record written { log = l })
            (append_assoc t.log _ _
              ∙ ap (λ xs. t.log ++ (to_addr (address * 2) ∷ map to_data xs))
                  (ap (slice started.write_data 0) e
                    ∙ slice-copy n bytes t.write_data (omega arith) (omega (arith, v.write_size))))

module _ (b : MasterBits) (address : ℕ) (bytes : List ℕ) (n : ℕ) {t : TwiMaster} (v : IsValid t)
    (in_bytes : n ≤ length bytes) (idle : t.status ≡ twim_status_ready)
    (small : address < 128) where
  -- From a ready driver within its invariant, for an address below 128: a write of 1 to 255 of the
  -- given bytes is accepted, and after one acknowledged interrupt for the address and one for each
  -- byte it is over: the driver is ready with TWIM_RESULT_OK, and has written to the registers the
  -- address byte, the bytes in order, and STOP.
  pub write_transaction :
      (acks : List Registers) (last : Registers)
      → 0 < n
      → n ≤ 255
      → All (IsAcknowledged b) acks
      → IsAcknowledged b last
      → length acks ≡ n
      → let (t0, accepted) = master_write address bytes n t in
        let t' = interrupts b (acks ++ (last ∷ [])) t0 in
        (accepted ≡ true)
        × (t'.status ≡ twim_status_ready)
        × (t'.result ≡ ok)
        × (t'.log
            ≡ t.log
              ++ (to_addr (address * 2) ∷ map to_data (slice bytes 0 n)
                  ++ (to_ctrlc b.cmd_stop ∷ [])))
  unfolding master_write interrupts
  write_transaction acks last pos few ha hl e =
      rw
        (
          write_read-started b address bytes n 0 t v idle small pos few (omega arith),
          interrupts-append b acks (last ∷ []) (started b address bytes n 0 t),
          interrupts-written b address bytes n 0 t v idle small pos few (omega arith) acks ha e,
          finish_writing b last (written b address bytes n 0 t v idle small pos few (omega arith))
              hl refl (omega arith),
        )
        (refl, refl, refl, append_assoc t.log _ _)

  -- From a ready driver within its invariant, for an address below 128: a write of 1 to 255 of the
  -- given bytes that is followed by a read of 1 to 20 is accepted. After one acknowledged
  -- interrupt for the address and one for each byte written, and one interrupt for each byte
  -- received, the driver is ready with TWIM_RESULT_OK and has the received bytes at the front of
  -- its read buffer. On the bus it has sent the address for writing, the bytes, the address for
  -- reading, an acknowledgement for each byte received but the last, and for that one NACK with
  -- STOP.
  pub write_read_transaction :
      (acks : List Registers) (last : Registers) (r : Registers) (rs : List Registers)
      → 0 < n
      → n ≤ 255
      → length (r ∷ rs) ≤ 20
      → All (IsAcknowledged b) acks
      → IsAcknowledged b last
      → All (IsReceived b) (r ∷ rs)
      → length acks ≡ n
      → let (t0, accepted) = write_read address bytes n (length (r ∷ rs)) t in
        let t' = interrupts b (acks ++ (last ∷ r ∷ rs)) t0 in
        (accepted ≡ true)
        × (t'.status ≡ twim_status_ready)
        × (t'.result ≡ ok)
        × (slice t'.read_data 0 (length (r ∷ rs)) ≡ map (λ q. q.received) (r ∷ rs))
        × (t'.log
            ≡ t.log
              ++ ((to_addr (address * 2) ∷ map to_data (slice bytes 0 n))
                  ++ (to_addr (address * 2 + 1)
                      ∷ (replicate (length rs) (to_ctrlc b.cmd_recvtrans) ++ (stop b ∷ [])))))
  unfolding interrupts
  write_read_transaction acks last r rs pos few room ha hl hr e =
      rw (write_read-started b address bytes n (length (r ∷ rs)) t v idle small pos few room, whole)
        (
          refl,
          refl,
          refl,
          ap (slice (put t.read_data 0 received) 0) (sym (length-map (r ∷ rs) (λ q. q.received)))
              ∙ slice-put t.read_data 0 received (
                  omega (
                    arith,
                    length-map {0, 0} (r ∷ rs) (λ (q : Registers). q.received),
                    v.read_size,
                  )),
          append_assoc w.log _ _ ∙ append_assoc t.log _ _,
        )
    where
      received : List ℕ
      received = map (λ q. q.received) (r ∷ rs)

      w : TwiMaster
      w = written b address bytes n (length (r ∷ rs)) t v idle small pos few room

      turned : TwiMaster
      turned = record w { log = w.log ++ (to_addr (address * 2 + 1) ∷ []) }

      whole :
          interrupts b (acks ++ (last ∷ r ∷ rs)) (started b address bytes n (length (r ∷ rs)) t)
          ≡ record turned {
            bytes_read = length (r ∷ rs);
            read_data = put t.read_data 0 received;
            status = twim_status_ready;
            result = ok;
            log = turned.log ++ (replicate (length rs) (to_ctrlc b.cmd_recvtrans) ++ (stop b ∷ []));
          }
      whole =
          interrupts-append b acks (last ∷ r ∷ rs) _
          ∙ ap (interrupts b (last ∷ r ∷ rs)) (
              interrupts-written b address bytes n (length (r ∷ rs)) t v idle small pos few room
                acks ha e)
          ∙ ap (interrupts b (r ∷ rs)) (
              turn_around b last w hl refl (omega arith)
              ∙ ap (λ x. record w { log = w.log ++ (to_addr x ∷ []) }) (read_address address small))
          ∙ receive_bytes b r rs turned hr (omega arith) room
