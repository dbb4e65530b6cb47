-- ===== src/CspInterface/Frames.antt =====
-- Frames from one board to another: what `i2c_send` puts on the bus, and what the callback gets.
use rtos_hm_board.Prelude.{
  ℕ, zero, suc, ◌+◌, ◌≤◌, ◌<◌, ◌≡◌, refl, arith, List, [], ◌∷◌, ◌++◌, map, false, length, set,
  get_or, ap, ◌∙◌, sym, All, lt→ltb, length-map, bit_and, replicate,
}
use rtos_hm_board.Prelude.Slices.{slice, put, slice-put}
use rtos_hm_board.TwiSlave
use rtos_hm_board.TwiSlave.{TwiSlave, SlaveBits, flag}
use rtos_hm_board.TwiSlave.Invariant.{IsValid}
use rtos_hm_board.TwiSlave.Receive.{
  IsMatch, IsByte, IsStop, addressed, receive_bytes, ended, stopped, enabled,
}
use rtos_hm_board.CspInterface.{Frame, copy_received, slave_process_data}

copy_received-eq-put :
    (n i : ℕ) (from to : List ℕ) → copy_received n i from to ≡ put to i (slice from i n)
unfolding copy_received put slice
copy_received-eq-put zero i from to = refl
copy_received-eq-put (suc n) i from to =
    copy_received-eq-put n (i + 1) from (set to i (get_or from i 0))

pub interrupts-append :
    {E : Type 0} (b : SlaveBits) (p : TwiSlave E → E) (rs qs : List TwiSlave.Registers)
    (t : TwiSlave E)
    → TwiSlave.interrupts b p (rs ++ qs) t
      ≡ TwiSlave.interrupts b p qs (TwiSlave.interrupts b p rs t)
unfolding TwiSlave.interrupts
interrupts-append b p [] qs t = refl
interrupts-append b p (r ∷ rs) qs t = interrupts-append b p rs qs (TwiSlave.interrupt b p r t)

module _ (b : SlaveBits) (stack : Frame) {t : TwiSlave (List Frame)} (v : IsValid t)
    (no_abort : t.abort ≡ false) where
  abbrev pub received : List TwiSlave.Registers → List ℕ
  received rs = map (λ q. q.received) rs

  -- The frame that is built from the received bytes.
  abbrev pub delivered : List TwiSlave.Registers → Frame
  delivered rs = record stack { len = length rs; bytes = put stack.bytes 0 (received rs) }

  -- What the callback makes of a finished transfer.
  pub process_received :
      (rs : List TwiSlave.Registers) (u : TwiSlave (List Frame)) (d : List ℕ)
      → u.result ≡ TwiSlave.ok
      → u.bytes_received ≡ length rs
      → u.received_data ≡ put d 0 (received rs)
      → 0 < length rs
      → length rs ≤ length d
      → slave_process_data stack u ≡ u.env ++ (delivered rs ∷ [])
  unfolding slave_process_data
  process_received rs u d e n p pos few =
      rw (e, n, p, lt→ltb 0 (length rs) pos)
        (ap (λ xs. u.env ++ (record stack { len = length rs; bytes = xs } ∷ []))
          (copy_received-eq-put (length rs) 0 (put d 0 (received rs)) stack.bytes
            ∙ ap (put stack.bytes 0) (
                ap (slice (put d 0 (received rs)) 0) (sym (length-map rs (λ q. q.received)))
                ∙ slice-put d 0 (received rs) (
                    omega (arith, length-map {0, 0} rs (λ (q : TwiSlave.Registers). q.received))))))

  -- The slave once it is addressed.
  abbrev open_for_data : TwiSlave (List Frame)
  open_for_data = record t {
    status = TwiSlave.twis_status_busy;
    result = TwiSlave.unknown;
    ctrla = bit_and t.ctrla (TwiSlave.complement b.pien);
    bytes_received = 0;
    bytes_sent = 0;
    log = t.log ++ (TwiSlave.to_ctrlb b.cmd_response ∷ []);
  }

  -- The slave after the bytes.
  abbrev pub got : List TwiSlave.Registers → TwiSlave (List Frame)
  got rs = record open_for_data {
    ctrla = enabled b (slave_process_data stack) (length rs) open_for_data.ctrla;
    received_data = put t.received_data 0 (received rs);
    bytes_received = 0 + length rs;
    log = open_for_data.log ++ replicate (length rs) (TwiSlave.to_ctrlb b.cmd_response);
  }

  pub after_bytes :
      (m : TwiSlave.Registers) (rs qs : List TwiSlave.Registers)
      → length rs ≤ 72
      → IsMatch b m
      → All (IsByte b) rs
      → TwiSlave.interrupts b (slave_process_data stack) (m ∷ rs ++ qs) t
        ≡ TwiSlave.interrupts b (slave_process_data stack) qs (got rs)
  unfolding TwiSlave.interrupts
  after_bytes m rs qs few hm hr =
      let p = slave_process_data stack in
      ap (TwiSlave.interrupts b p (rs ++ qs)) (addressed b p m t hm no_abort)
      ∙ interrupts-append b p rs qs open_for_data
      ∙ ap (TwiSlave.interrupts b p qs)
          (receive_bytes b p rs open_for_data hr no_abort (omega arith))

  -- A transfer of 1 to 72 bytes to a slave within its invariant and without a pending abort, whose
  -- local frame has 255 bytes: if it is addressed to the slave, ends with STOP and meets no error,
  -- the callback is called once, with a frame whose length is the number of bytes and whose first
  -- bytes are these, in order; the rest of the frame is what the local variable held. The slave
  -- ends ready, with TWIS_RESULT_OK.
  pub receive_frame :
      (m : TwiSlave.Registers) (rs : List TwiSlave.Registers) (s : TwiSlave.Registers)
      → 0 < length rs
      → length rs ≤ 72
      → length stack.bytes ≡ 255
      → IsMatch b m
      → All (IsByte b) rs
      → IsStop b s
      → let t' = TwiSlave.interrupts b (slave_process_data stack) (m ∷ rs ++ (s ∷ [])) t in
        (t'.env ≡ t.env ++ (delivered rs ∷ []))
        × (t'.status ≡ TwiSlave.twis_status_ready)
        × (t'.result ≡ TwiSlave.ok)
        × (slice (delivered rs).bytes 0 (length rs) ≡ received rs)
  unfolding TwiSlave.interrupts
  receive_frame m rs s pos few wide hm hr hs =
      rw (after_bytes m rs (s ∷ []) few hm hr, ended b (slave_process_data stack) s (got rs) hs)
        (
          process_received rs (stopped b (slave_process_data stack) s (got rs)) t.received_data refl
              (omega arith) refl pos (omega (arith, v.receive_size)),
          refl,
          refl,
          ap (slice (put stack.bytes 0 (received rs)) 0) (sym (length-map rs (λ q. q.received)))
              ∙ slice-put stack.bytes 0 (received rs)
                  (omega (arith, length-map {0, 0} rs (λ (q : TwiSlave.Registers). q.received))),
        )
