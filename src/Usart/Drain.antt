-- ===== src/Usart/Drain.antt =====
-- The bytes of MyDrivers/usart_driver_RTOS.c reach the line.
use mathlib.Core.List.{append_assoc, append-nil}
use rtos_hm_board.Prelude.{
  ℕ, zero, suc, ◌+◌, ◌≤◌, ◌<◌, ◌≡◌, ◌⊎◌, inl, inr, refl, ap, ◌∙◌, sym, subst, arith, if◌then◌else◌,
  true, false, bit_and, List, [], ◌∷◌, ◌++◌, length, length-append, Bool-cases,
}
use rtos_hm_board.Prelude.Fields.{set_field, bit_and-set_field}
use rtos_hm_board.Usart.{
  ByteQueue, UsartBits, UsartBuffer, queue_byte, write_level, data_reg_empty, put_byte, put_string,
}
use rtos_hm_board.Usart.Laws.{
  ByteQueueLaws, UsartBitsLaws, enabled, data_reg_empty-nil, data_reg_empty-cons,
}
use rtos_hm_board.Usart.Interleaving.{
  idle, queued, loaded, Line, Reach, here, next, accept, load, store, IsOrdered, IsArmed,
  Reach-IsOrdered, off_within,
}

module _ {q : ByteQueue} (b : UsartBits) where
  -- The hardware calls the handler as long as the interrupt is enabled, here `n` times at most.
  pub service : ℕ → UsartBuffer q → UsartBuffer q
  service zero s = s
  service (suc n) s =
      let rest = service n (data_reg_empty q b s).0 in if enabled b s.usart then rest else s

  Reach-join : {l m n : Line q} → Reach b l m → Reach b m n → Reach b l n
  Reach-join r here = r
  Reach-join r (next s step) = next (Reach-join r s) step

module _ {q : ByteQueue} (laws : ByteQueueLaws q) (b : UsartBits) (bits : UsartBitsLaws b) where
  -- The waiting bytes of a line.
  abbrev waiting : UsartBuffer q → List ℕ
  waiting s = laws.items s.queue_tx

  -- With room in the queue, `usartBufferPutByte` without an interrupt is three steps.
  put_byte-Reach :
      (l : Line q) (byte ticks : ℕ)
      → l.phase ≡ idle
      → length (waiting l.buffer) < laws.capacity l.buffer.queue_tx
      → Reach b l (record {
        buffer = put_byte q b byte ticks l.buffer;
        phase = idle;
        accepted = l.accepted ++ (byte ∷ []);
      })
        × (waiting (put_byte q b byte ticks l.buffer) ≡ waiting l.buffer ++ (byte ∷ []))
        × (laws.capacity (put_byte q b byte ticks l.buffer).queue_tx
            ≡ laws.capacity l.buffer.queue_tx)
  unfolding put_byte
  put_byte-Reach l byte ticks at room =
      let (appended, success, same) = laws.send-room byte ticks l.buffer.queue_tx room in
      let accepted = l.accepted ++ (byte ∷ []) in
      let s = (queue_byte q b byte ticks l.buffer).0 in
      let step1 = next here (accept l byte ticks at success) in
      let step2 =
        next step1 (load (record { buffer = s; phase = queued; accepted = accepted }) refl) in
      let temp = s.usart.ctrla in
      let l2 : Line q = record { buffer = s; phase = loaded temp; accepted = accepted } in
      let put : put_byte q b byte ticks l.buffer ≡ write_level q b temp s.dre_int_level s =
        ap (λ c. if c then write_level q b temp s.dre_int_level s else s) success in
      (
        subst (λ t. Reach b l (record { buffer = t; phase = idle; accepted = accepted })) (sym put)
            (next step2 (store l2 temp refl)),
        ap waiting put ∙ appended,
        ap (λ (t : UsartBuffer q). laws.capacity t.queue_tx) put ∙ same,
      )

  put_string-Reach :
      (l : Line q) (text : List ℕ) (ticks : ℕ)
      → l.phase ≡ idle
      → length (waiting l.buffer) + length text ≤ laws.capacity l.buffer.queue_tx
      → Reach b l (record {
        buffer = put_string q b text ticks l.buffer;
        phase = idle;
        accepted = l.accepted ++ text;
      })
  unfolding put_string
  put_string-Reach l [] ticks at room =
      subst (λ a. Reach b l (record { buffer = l.buffer; phase = idle; accepted = a }))
        (sym (append-nil l.accepted)) (subst (λ p. Reach b l (record l { phase = p })) at here)
  put_string-Reach l (c ∷ cs) ticks at room =
      let (reach, appended, same) = put_byte-Reach l c ticks at (omega arith) in
      let l1 : Line q = record {
        buffer = put_byte q b c ticks l.buffer;
        phase = idle;
        accepted = l.accepted ++ (c ∷ []);
      } in
      let longer = ap length appended ∙ length-append (waiting l.buffer) (c ∷ []) in
      let rest = put_string-Reach l1 cs ticks refl (omega arith) in
      subst
        (λ a.
          Reach b l
            (record { buffer = put_string q b cs ticks l1.buffer; phase = idle; accepted = a }))
        (append_assoc l.accepted (c ∷ []) cs) (Reach-join b reach rest)

  service_on :
      (n : ℕ) (s : UsartBuffer q)
      → enabled b s.usart ≡ true
      → service b (suc n) s ≡ service b n (data_reg_empty q b s).0
  unfolding service
  service_on n s on = ap (λ c. if c then service b n (data_reg_empty q b s).0 else s) on

  service_off : (n : ℕ) (s : UsartBuffer q) → enabled b s.usart ≡ false → service b (suc n) s ≡ s
  unfolding service
  service_off n s off = ap (λ c. if c then service b n (data_reg_empty q b s).0 else s) off

  -- Everything has been sent, and the interrupt is off.
  abbrev IsDrained : List ℕ → UsartBuffer q → Type 0
  IsDrained sent s = (s.usart.sent ≡ sent) × (waiting s ≡ []) × (enabled b s.usart ≡ false)

  -- Enough calls of the handler send what waits, and the last one switches the interrupt off.
  service_lem :
      (s : UsartBuffer q) (xs : List ℕ)
      → waiting s ≡ xs
      → (xs ≡ []) ⊎ (enabled b s.usart ≡ true)
      → IsDrained (s.usart.sent ++ xs) (service b (suc (length xs)) s)
  unfolding service
  service_lem s [] e armed = elim (Bool-cases (enabled b s.usart)) [
    | inl on ↦
        let stopped = data_reg_empty-nil laws b s e in
        let field : bit_and (set_field 8 s.usart.ctrla b.dreintlvl b.dre_off) b.dreintlvl ≡ 0 =
          bit_and-set_field 8 s.usart.ctrla b.dreintlvl b.dre_off bits.mask_in (off_within b bits)
          ∙ bits.off_lem in
        subst (IsDrained (s.usart.sent ++ [])) (sym (service_on 0 s on ∙ stopped))
          (sym (append-nil s.usart.sent), e, ground arith)
    | inr off ↦
        subst (IsDrained (s.usart.sent ++ [])) (sym (service_off 0 s off))
          (sym (append-nil s.usart.sent), e, off)
  ]
  service_lem s (x ∷ xs) e (inl nil) = absurd (cc)
  service_lem s (x ∷ xs) e (inr on) =
      let (u, sent, items_lem) = data_reg_empty-cons laws b s x xs e in
      let s' : UsartBuffer q = record s {
        queue_tx = u;
        usart = record s.usart { sent = s.usart.sent ++ (x ∷ []) };
      } in
      let rest = service_lem s' xs items_lem (inr on) in
      let first = service_on (suc (length xs)) s on ∙ ap (service b (suc (length xs))) sent in
      subst (IsDrained (s.usart.sent ++ (x ∷ xs))) (sym first)
        (rest.0 ∙ append_assoc s.usart.sent (x ∷ []) xs, rest.1, rest.2)

  module _ (rest : ℕ) {l l' : Line q} (v : IsOrdered laws b bits rest l) (r : Reach b l l')
      (at : l'.phase ≡ idle) where
    -- Where the task is outside of `usartBufferPutByte`, all accepted bytes can be sent.
    pub Reach-transmits :
        let s = service b (suc (length (laws.items l'.buffer.queue_tx))) l'.buffer in
        (s.usart.sent ≡ l'.accepted) × (laws.items s.queue_tx ≡ []) × (enabled b s.usart ≡ false)
    Reach-transmits =
        let v' = Reach-IsOrdered laws b bits rest v r in
        let armed =
          subst (λ p. IsArmed laws b bits rest p l'.buffer.usart (waiting l'.buffer)) at v'.armed in
        let (sent, empty, off) = service_lem l'.buffer (waiting l'.buffer) refl armed in
        (sent ∙ v'.in_order, empty, off)

  -- With the accepted bytes in order and the interrupt enabled while they wait, a task outside of
  -- `usartBufferPutByte` and room for a text in the queue: after `usartBufferPutString`, as many
  -- calls of the handler as bytes wait, and one, send the accepted bytes and then the text.
  pub put_string-transmits :
      (rest : ℕ) (l : Line q) (text : List ℕ) (ticks : ℕ)
      → IsOrdered laws b bits rest l
      → l.phase ≡ idle
      → length (laws.items l.buffer.queue_tx) + length text ≤ laws.capacity l.buffer.queue_tx
      → let s = put_string q b text ticks l.buffer in
        (service b (suc (length (laws.items s.queue_tx))) s).usart.sent ≡ l.accepted ++ text
  put_string-transmits rest l text ticks v at room =
      (Reach-transmits rest v (put_string-Reach l text ticks at room) refl).0
