-- ===== src/CspInterface/Overlong.antt =====
-- Transfers to the board that go wrong: too many bytes, and what came before a good one.
use rtos_hm_board.Prelude.{
  ◌≤◌, ◌<◌, ◌≡◌, refl, arith, List, [], ◌∷◌, ◌++◌, map, false, length, ap, ◌∙◌, All, bit_or,
}
use rtos_hm_board.Prelude.Slices.{put}
use rtos_hm_board.TwiSlave
use rtos_hm_board.TwiSlave.{TwiSlave, SlaveBits}
use rtos_hm_board.TwiSlave.Invariant.{IsValid, interrupts-IsValid_slave}
use rtos_hm_board.TwiSlave.Receive.{IsMatch, IsByte, IsStop, ended, stopped}
use rtos_hm_board.CspInterface.{Frame, slave_process_data}
use rtos_hm_board.CspInterface.Frames.{
  delivered, got, after_bytes, process_received, receive_frame, interrupts-append,
}

module _ (b : SlaveBits) (stack : Frame) where
  -- The slave after a byte that does not fit.
  abbrev overflowed : TwiSlave (List Frame) → TwiSlave (List Frame)
  overflowed t = record t {
    ctrla = bit_or t.ctrla b.pien;
    result = TwiSlave.buffer_overflow;
    status = TwiSlave.twis_status_ready;
    log = t.log ++ (TwiSlave.to_ctrlb (bit_or b.ackact b.cmd_comptrans) ∷ []);
  }

  overflow :
      (r : TwiSlave.Registers) (t : TwiSlave (List Frame))
      → IsByte b r
      → 72 ≤ t.bytes_received
      → TwiSlave.interrupt b (slave_process_data stack) r t ≡ overflowed t
  unfolding TwiSlave.interrupt TwiSlave.data_handler slave_process_data
  overflow r t m full = ground (arith, m.no_error)

  -- A transfer of 73 bytes to a slave within its invariant and without a pending abort, whose local
  -- frame has 255 bytes: the last byte is answered by NACK and ends the transaction with
  -- TWIS_RESULT_BUFFER_OVERFLOW, which calls nothing. The STOP that follows still ends a transaction
  -- with TWIS_RESULT_OK: the callback gets the first 72 bytes as a frame of that length.
  pub overlong_frame :
      {t : TwiSlave (List Frame)}
      → IsValid t
      → t.abort ≡ false
      → (m : TwiSlave.Registers) (rs : List TwiSlave.Registers) (x s : TwiSlave.Registers)
      → length rs ≡ 72
      → IsMatch b m
      → All (IsByte b) rs
      → IsByte b x
      → IsStop b s
      → let p = slave_process_data stack in
        let t1 = TwiSlave.interrupts b p (m ∷ rs ++ (x ∷ [])) t in
        let t2 = TwiSlave.interrupts b p (m ∷ rs ++ (x ∷ s ∷ [])) t in
        (t1.result ≡ TwiSlave.buffer_overflow)
        × (t1.env ≡ t.env)
        × (t2.result ≡ TwiSlave.ok)
        × (t2.env
            ≡ t.env
              ++ (record stack { len = 72; bytes = put stack.bytes 0 (map (λ q. q.received) rs) }
                  ∷ []))
  unfolding TwiSlave.interrupts
  overlong_frame {t} v no_abort m rs x s full hm hr hx hs =
      let p = slave_process_data stack in
      let held = got b stack v no_abort rs in
      let refused = overflow x held hx (omega arith) in
      let first = after_bytes b stack v no_abort m rs (x ∷ []) (omega arith) hm hr ∙ refused in
      let whole =
        after_bytes b stack v no_abort m rs (x ∷ s ∷ []) (omega arith) hm hr
        ∙ ap (TwiSlave.interrupt b p s) refused
        ∙ ended b p s (overflowed held) hs in
      (
        ap (λ u. u.result) first,
        ap (λ u. u.env) first,
        ap (λ u. u.result) whole,
        ap (λ u. u.env) whole
            ∙ process_received b stack v no_abort rs (stopped b p s (overflowed held))
                t.received_data refl (omega arith) refl (omega arith)
                (omega (arith, v.receive_size))
            ∙ ap (λ n. t.env ++ (record (delivered b stack v no_abort rs) { len = n } ∷ [])) full,
      )

  no_abort-interrupt :
      (r : TwiSlave.Registers) (t : TwiSlave (List Frame))
      → t.abort ≡ false
      → (TwiSlave.interrupt b (slave_process_data stack) r t).abort ≡ false
  unfolding TwiSlave.interrupt TwiSlave.address_match_handler TwiSlave.stop_handler
      TwiSlave.data_handler
  no_abort-interrupt r t h = ground arith

  no_abort-interrupts :
      (rs : List TwiSlave.Registers) (t : TwiSlave (List Frame))
      → t.abort ≡ false
      → (TwiSlave.interrupts b (slave_process_data stack) rs t).abort ≡ false
  unfolding TwiSlave.interrupts
  no_abort-interrupts [] t h = h
  no_abort-interrupts (r ∷ rs) t h =
      no_abort-interrupts rs (TwiSlave.interrupt b (slave_process_data stack) r t)
        (no_abort-interrupt r t h)

  -- Whatever interrupts came before, with bus errors, collisions, transfers that broke off or
  -- overflowed: a transfer of 1 to 72 bytes that is addressed to the slave, ends with STOP and meets
  -- no error adds exactly one frame, with its own bytes, and leaves the slave ready with
  -- TWIS_RESULT_OK. The slave starts within its invariant and without a pending abort, and its local
  -- frame has 255 bytes.
  pub interrupts-recover :
      {t : TwiSlave (List Frame)}
      → IsValid t
      → t.abort ≡ false
      → (before : List TwiSlave.Registers) (m : TwiSlave.Registers) (rs : List TwiSlave.Registers)
        (s : TwiSlave.Registers)
      → 0 < length rs
      → length rs ≤ 72
      → length stack.bytes ≡ 255
      → IsMatch b m
      → All (IsByte b) rs
      → IsStop b s
      → let p = slave_process_data stack in
        let t1 = TwiSlave.interrupts b p before t in
        let t2 = TwiSlave.interrupts b p (before ++ (m ∷ rs ++ (s ∷ []))) t in
        (t2.env
          ≡ t1.env
            ++ (record stack {
              len = length rs;
              bytes = put stack.bytes 0 (map (λ q. q.received) rs);
            }
                ∷ []))
        × (t2.status ≡ TwiSlave.twis_status_ready)
        × (t2.result ≡ TwiSlave.ok)
  interrupts-recover {t} v no_abort before m rs s pos few wide hm hr hs =
      let p = slave_process_data stack in
      let (frames, status, result, bytes) =
        receive_frame b stack (interrupts-IsValid_slave b p before v)
          (no_abort-interrupts before t no_abort) m rs s pos few wide hm hr hs in
      rw (interrupts-append b p before (m ∷ rs ++ (s ∷ [])) t) (frames, status, result)
