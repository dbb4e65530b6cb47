-- ===== src/CspInterface/EndToEnd.antt =====
-- A frame from `i2c_send` on one board to the callback on another, and the callback after a read.
use rtos_hm_board.Prelude.{
  ℕ, ◌*◌, ◌%◌, ◌^◌, ◌≤◌, ◌<◌, ◌≡◌, refl, arith, List, [], ◌∷◌, ◌++◌, map, true, false, length, ap,
  ap₂, ◌∙◌, sym, All, length-map, if◌then◌else◌,
}
use rtos_hm_board.Prelude.Slices.{slice, put, length-slice}
use rtos_hm_board.TwiMaster
use rtos_hm_board.TwiMaster.{TwiMaster, MasterBits, RegisterWrite, master_write}
use rtos_hm_board.TwiMaster.Invariant
use rtos_hm_board.TwiMaster.Phases.{IsAcknowledged}
use rtos_hm_board.TwiMaster.Transfer.{write_transaction}
use rtos_hm_board.TwiSlave
use rtos_hm_board.TwiSlave.{TwiSlave, SlaveBits, flag}
use rtos_hm_board.TwiSlave.Invariant as SlaveInvariant
use rtos_hm_board.TwiSlave.Receive.{IsMatch, IsByte, IsStop, addressed}
use rtos_hm_board.CspInterface.{Frame, slave_process_data, i2c_send, e_no_err}
use rtos_hm_board.CspInterface.Frames.{receive_frame}

-- The bytes that a master has put into its data register.
unfoldable pub sent_bytes : List RegisterWrite → List ℕ
sent_bytes [] = []
sent_bytes (TwiMaster.to_data x ∷ ws) = x ∷ sent_bytes ws
sent_bytes (TwiMaster.to_addr x ∷ ws) = sent_bytes ws
sent_bytes (TwiMaster.to_ctrla x ∷ ws) = sent_bytes ws
sent_bytes (TwiMaster.to_baud x ∷ ws) = sent_bytes ws
sent_bytes (TwiMaster.to_status x ∷ ws) = sent_bytes ws
sent_bytes (TwiMaster.to_ctrlc x ∷ ws) = sent_bytes ws

sent_bytes-map :
    (xs : List ℕ) (c : ℕ)
    → sent_bytes (map TwiMaster.to_data xs ++ (TwiMaster.to_ctrlc c ∷ [])) ≡ xs
unfolding sent_bytes
sent_bytes-map [] c = refl
sent_bytes-map (x ∷ xs) c = ap (λ t. x ∷ t) (sent_bytes-map xs c)

module _ (mb : MasterBits) (sb : SlaveBits) (frame stack : Frame) {u : TwiMaster}
    {t : TwiSlave (List Frame)} (sender : Invariant.IsValid u)
    (receiver : SlaveInvariant.IsValid t) where
  abbrev after : List TwiMaster.Registers → TwiMaster.Registers → TwiMaster
  after acks last = TwiMaster.interrupts mb (acks ++ (last ∷ [])) (i2c_send frame u).0

  -- Two boards on one bus, each driver within its invariant: `i2c_send` to an address below 128 of
  -- a frame of 1 to 72 bytes, all of them in its array, by a ready master that has written no
  -- register yet, to a slave without a pending abort whose local frame has 255 bytes. If the slave
  -- acknowledges the address and each byte, and its data interrupts read the bytes that the
  -- master's data register was given, between an address match and a STOP, then `i2c_send` returns
  -- E_NO_ERR, the master ends ready, and the callback of the receiving board gets one frame, of
  -- the same length and with the same bytes at its front.
  pub i2c_send_delivers :
      (acks : List TwiMaster.Registers) (last : TwiMaster.Registers) (m : TwiSlave.Registers)
      (rs : List TwiSlave.Registers) (s : TwiSlave.Registers)
      → u.status ≡ TwiMaster.twim_status_ready
      → u.log ≡ []
      → frame.dest < 128
      → 0 < frame.len
      → frame.len ≤ 72
      → frame.len ≤ length frame.bytes
      → All (IsAcknowledged mb) acks
      → IsAcknowledged mb last
      → length acks ≡ frame.len
      → t.abort ≡ false
      → length stack.bytes ≡ 255
      → IsMatch sb m
      → All (IsByte sb) rs
      → IsStop sb s
      → map (λ q. q.received) rs ≡ sent_bytes (after acks last).log
      → ((i2c_send frame u).1 ≡ e_no_err)
        × ((after acks last).status ≡ TwiMaster.twim_status_ready)
        × ((TwiSlave.interrupts sb (slave_process_data stack) (m ∷ rs ++ (s ∷ [])) t).env
            ≡ t.env
              ++ (record stack {
                len = frame.len;
                bytes = put stack.bytes 0 (slice frame.bytes 0 frame.len);
              }
                  ∷ []))
  unfolding i2c_send sent_bytes
  i2c_send_delivers acks last m rs s idle fresh small pos few inside ha hl e no_abort wide hm hr hs
        bus =
      (
        ap (λ c. c.1) call ∙ rw sent.0,
        ap (λ c. (TwiMaster.interrupts mb (acks ++ (last ∷ [])) c.0).status) call ∙ sent.1,
        (receive_frame sb stack receiver no_abort m rs s (rw size pos) (rw size few) wide hm hr
              hs).0
            ∙ ap₂ (λ n xs. t.env ++ (record stack { len = n; bytes = put stack.bytes 0 xs } ∷ []))
                size (bus ∙ bytes_lem),
      )
    where
      written : ℕ → TwiMaster × ℕ
      written n =
          let (u', accepted) = master_write frame.dest frame.bytes n u in
          (u', if accepted then e_no_err else 1)

      call : written (frame.len % 2 ^ 8) ≡ written frame.len
      call = ap written (omega arith)

      sent :
          let (u0, accepted) = master_write frame.dest frame.bytes frame.len u in
          let u' = TwiMaster.interrupts mb (acks ++ (last ∷ [])) u0 in
          (accepted ≡ true)
          × (u'.status ≡ TwiMaster.twim_status_ready)
          × (u'.result ≡ TwiMaster.ok)
          × (u'.log
              ≡ u.log
                ++ (TwiMaster.to_addr (frame.dest * 2)
                      ∷ map TwiMaster.to_data (slice frame.bytes 0 frame.len)
                    ++ (TwiMaster.to_ctrlc mb.cmd_stop ∷ [])))
      sent =
          write_transaction mb frame.dest frame.bytes frame.len sender inside idle small acks last
            pos (omega arith) ha hl e

      bytes_lem : sent_bytes (after acks last).log ≡ slice frame.bytes 0 frame.len
      bytes_lem =
          ap (λ c. sent_bytes (TwiMaster.interrupts mb (acks ++ (last ∷ [])) c.0).log) call
          ∙ ap sent_bytes sent.3
          ∙ ap
              (λ l. sent_bytes (
                l
                ++ (TwiMaster.to_addr (frame.dest * 2)
                      ∷ map TwiMaster.to_data (slice frame.bytes 0 frame.len)
                    ++ (TwiMaster.to_ctrlc mb.cmd_stop ∷ []))))
              fresh
          ∙ sent_bytes-map (slice frame.bytes 0 frame.len) mb.cmd_stop

      size : length rs ≡ frame.len
      size =
          sym (length-map rs (λ q. q.received))
          ∙ ap length (bus ∙ bytes_lem)
          ∙ length-slice frame.bytes 0 frame.len

-- An interrupt after a byte that the master has taken from the slave, or its refusal of more.
pub record IsRequest (b : SlaveBits) (r : TwiSlave.Registers) : Type 0 where
  pub no_error : flag r.status b.buserr ≡ false
  pub no_collision : flag r.status b.coll ≡ false
  pub no_address : flag r.status b.apif ≡ false
  pub byte : flag r.status b.dif ≡ true
  pub to_master : flag r.status b.dir ≡ true

-- When a master addresses a slave without a pending abort, reads one byte from it and refuses a
-- second one, without errors, the callback is called with the local variable as it stands, though
-- no byte was received.
pub read_delivers_stack :
    (b : SlaveBits) (stack : Frame) (t : TwiSlave (List Frame)) (m r s : TwiSlave.Registers)
    → t.abort ≡ false
    → IsMatch b m
    → IsRequest b r
    → IsRequest b s
    → flag s.status b.rxack ≡ true
    → (TwiSlave.interrupts b (slave_process_data stack) (m ∷ r ∷ s ∷ []) t).env
      ≡ t.env ++ (stack ∷ [])
unfolding TwiSlave.interrupts TwiSlave.interrupt TwiSlave.data_handler slave_process_data
read_delivers_stack b stack t m r s no_abort hm hr hs refused =
    rw (addressed b (slave_process_data stack) m t hm no_abort)
      (ground (arith, hr.no_error, hs.no_error))
