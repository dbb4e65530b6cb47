-- ===== src/Usart/Interleaving.antt =====
-- MyDrivers/usart_driver_RTOS.c with its interrupts between any two steps of a task that writes.
use rtos_hm_board.Prelude.{
  ℕ, ◌≡◌, ◌≢◌, ◌⊎◌, inl, inr, refl, ap, ◌∙◌, sym, subst, arith, true, false, bit_and, List, [], ◌∷◌,
  ◌++◌, some, List-cases,
}
use mathlib.Core.List.{append_assoc}
use Prim.Native.Nat.{bit_and-bitwise}
use rtos_hm_board.Prelude.Fields.{complement, set_field, bit_and-set_field, set_field-keeps}
use rtos_hm_board.Usart.{
  ByteQueue, UsartBits, Registers, UsartBuffer, queue_byte, write_level, data_reg_empty,
  rx_complete, get_byte,
}
use rtos_hm_board.Usart.Laws.{
  ByteQueueLaws, UsartBitsLaws, enabled, data_reg_empty-nil, data_reg_empty-cons, send_accepted,
  send_refused, get_byte-some,
}

-- Where the task stands in `usartBufferPutByte`: outside, behind the queue's function, or behind
-- the read of CTRLA.
pub data Phase : Type 0 where
  idle queued : Phase
  loaded : ℕ → Phase

-- `accepted` are the bytes that the queue took, in order.
pub record Line (q : ByteQueue) : Type 0 where
  pub buffer : UsartBuffer q
  pub phase : Phase
  pub accepted : List ℕ

module _ {q : ByteQueue} (b : UsartBits) where
  -- One step: of the task, of the reader, or a whole interrupt.
  pub data Step : Line q → Line q → Type 0 where
    accept :
        (l : Line q) (byte ticks : ℕ)
        → l.phase ≡ idle
        → (queue_byte q b byte ticks l.buffer).1 ≡ true
        → Step l (record {
          buffer = (queue_byte q b byte ticks l.buffer).0;
          phase = queued;
          accepted = l.accepted ++ (byte ∷ []);
        })
    refuse :
        (l : Line q) (byte ticks : ℕ)
        → l.phase ≡ idle
        → (queue_byte q b byte ticks l.buffer).1 ≡ false
        → Step l (record l { buffer = (queue_byte q b byte ticks l.buffer).0 })
    load :
        (l : Line q) → l.phase ≡ queued → Step l (record l { phase = loaded l.buffer.usart.ctrla })
    store :
        (l : Line q) (temp : ℕ)
        → l.phase ≡ loaded temp
        → Step l (record l {
          buffer = write_level q b temp l.buffer.dre_int_level l.buffer;
          phase = idle;
        })
    transmit :
        (l : Line q)
        → enabled b l.buffer.usart ≡ true
        → Step l (record l { buffer = (data_reg_empty q b l.buffer).0 })
    receive :
        (l : Line q) (byte : ℕ) → Step l (record l { buffer = (rx_complete q b byte l.buffer).0 })
    take :
        (l : Line q) (ticks byte : ℕ) (s : UsartBuffer q)
        → get_byte q b ticks l.buffer ≡ some (byte, s)
        → Step l (record l { buffer = s })

  pub data Reach (start : Line q) : Line q → Type 0 where
    here : Reach start start
    next : {l l' : Line q} → Reach start l → Step l l' → Reach start l'

-- The code that switches the interrupt off lies within its field.
pub off_within : (b : UsartBits) → UsartBitsLaws b → bit_and b.dre_off b.dreintlvl ≡ b.dre_off
off_within b bits = rw bits.off_lem (simp bit_and-bitwise refl)

module _ {q : ByteQueue} (laws : ByteQueueLaws q) (b : UsartBits) (bits : UsartBitsLaws b)
    (rest : ℕ) where
  -- What must hold of CTRLA and the waiting bytes in each phase.
  abbrev pub IsArmed : Phase → Registers → List ℕ → Type 0
  IsArmed idle r xs = (xs ≡ []) ⊎ (enabled b r ≡ true)
  IsArmed queued r xs = Unit {0}
  IsArmed (loaded temp) r xs = bit_and temp (complement 8 b.dreintlvl) ≡ rest

  -- Each accepted byte has been sent or waits, in order; outside of `usartBufferPutByte` bytes
  -- wait only with the interrupt enabled; and the other bits of CTRLA are `rest`.
  pub record IsOrdered (l : Line q) : Type 0 where
    pub in_order : l.buffer.usart.sent ++ laws.items l.buffer.queue_tx ≡ l.accepted
    pub level : l.buffer.dre_int_level ≡ b.dre_lo
    pub others : bit_and l.buffer.usart.ctrla (complement 8 b.dreintlvl) ≡ rest
    pub armed : IsArmed l.phase l.buffer.usart (laws.items l.buffer.queue_tx)

  write_level_lem :
      (temp level : ℕ)
      → bit_and level b.dreintlvl ≡ level
      → bit_and temp (complement 8 b.dreintlvl) ≡ rest
      → bit_and (set_field 8 temp b.dreintlvl level) (complement 8 b.dreintlvl) ≡ rest
  write_level_lem temp level within kept =
      set_field-keeps 8 temp b.dreintlvl level bits.mask_in within ∙ kept

  -- A transmission leaves what a phase asks for.
  IsArmed-nil : (p : Phase) (r r' : Registers) → IsArmed p r [] → IsArmed p r' []
  IsArmed-nil idle r r' h = inl refl
  IsArmed-nil queued r r' h = tt
  IsArmed-nil (loaded temp) r r' h = h

  IsArmed-cons :
      (p : Phase) (r : Registers) (x : ℕ) (xs sent : List ℕ)
      → IsArmed p r (x ∷ xs)
      → IsArmed p (record r { sent = sent }) xs
  IsArmed-cons idle r x xs sent (inl e) = absurd (cc)
  IsArmed-cons idle r x xs sent (inr on) = inr on
  IsArmed-cons queued r x xs sent h = tt
  IsArmed-cons (loaded temp) r x xs sent h = h

  transmit_lem :
      (l : Line q) → IsOrdered l → IsOrdered (record l { buffer = (data_reg_empty q b l.buffer).0 })
  transmit_lem l v = elim (List-cases (laws.items l.buffer.queue_tx)) [
    | inl nil ↦
        let armed = subst (IsArmed l.phase l.buffer.usart) nil v.armed in
        subst (λ s. IsOrdered (record l { buffer = s }))
          (sym (data_reg_empty-nil laws b l.buffer nil))
          (record {
            in_order = v.in_order;
            level = v.level;
            others = write_level_lem l.buffer.usart.ctrla b.dre_off (off_within b bits) v.others;
            armed =
                subst (IsArmed l.phase _) (sym nil) (IsArmed-nil l.phase l.buffer.usart _ armed);
          })
    | inr (x, xs, cons) ↦
        let (u, sent, items_lem) = data_reg_empty-cons laws b l.buffer x xs cons in
        let armed = subst (IsArmed l.phase l.buffer.usart) cons v.armed in
        subst (λ s. IsOrdered (record l { buffer = s })) (sym sent)
          (record {
            in_order =
                ap (λ t. (l.buffer.usart.sent ++ (x ∷ [])) ++ t) items_lem
                ∙ append_assoc l.buffer.usart.sent (x ∷ []) xs
                ∙ sym (ap (λ t. l.buffer.usart.sent ++ t) cons)
                ∙ v.in_order;
            level = v.level;
            others = v.others;
            armed =
                subst (IsArmed l.phase _) (sym items_lem) (
                  IsArmed-cons l.phase l.buffer.usart x xs (l.buffer.usart.sent ++ (x ∷ [])) armed);
          })
  ]

  store_lem :
      (l : Line q) (temp : ℕ)
      → l.phase ≡ loaded temp
      → IsOrdered l
      → IsOrdered
          (record l { buffer = write_level q b temp l.buffer.dre_int_level l.buffer; phase = idle })
  store_lem l temp at v =
      let level = l.buffer.dre_int_level in
      let within : bit_and level b.dreintlvl ≡ level = rw v.level bits.lo_within in
      let on : bit_and (set_field 8 temp b.dreintlvl level) b.dreintlvl ≢ 0 = λ zero_level.
        bits.lo_on (
          sym v.level
          ∙ sym (bit_and-set_field 8 temp b.dreintlvl level bits.mask_in within)
          ∙ zero_level) in
      let read = subst (λ p. IsArmed p l.buffer.usart (laws.items l.buffer.queue_tx)) at v.armed in
      record {
        in_order = v.in_order;
        level = v.level;
        others = write_level_lem temp level within read;
        armed = inr (ground arith);
      }

  take_lem :
      (l : Line q) (ticks byte : ℕ) (s : UsartBuffer q)
      → get_byte q b ticks l.buffer ≡ some (byte, s)
      → IsOrdered l
      → IsOrdered (record l { buffer = s })
  take_lem l ticks byte s got v =
      let (u, same) = get_byte-some laws b l.buffer ticks byte s got in
      subst (λ t. IsOrdered (record l { buffer = t })) same
        (record { in_order = v.in_order; level = v.level; others = v.others; armed = v.armed })

  Step-IsOrdered : {l l' : Line q} → Step b l l' → IsOrdered l → IsOrdered l'
  Step-IsOrdered (accept l byte ticks at success) v = record {
    in_order =
        ap (λ t. l.buffer.usart.sent ++ t)
          (send_accepted laws b byte ticks l.buffer.queue_tx success)
        ∙ sym (append_assoc l.buffer.usart.sent (laws.items l.buffer.queue_tx) (byte ∷ []))
        ∙ ap (λ t. t ++ (byte ∷ [])) v.in_order;
    level = v.level;
    others = v.others;
    armed = tt;
  }
  Step-IsOrdered (refuse l byte ticks at failed) v =
      subst (λ u. IsOrdered (record l { buffer = record l.buffer { queue_tx = u } }))
        (sym (send_refused laws b byte ticks l.buffer.queue_tx failed)) v
  Step-IsOrdered (load l at) v = record {
    in_order = v.in_order;
    level = v.level;
    others = v.others;
    armed = v.others;
  }
  Step-IsOrdered (store l temp at) v = store_lem l temp at v
  Step-IsOrdered (transmit l on) v = transmit_lem l v
  Step-IsOrdered (receive l byte) v =
      unfold rx_complete in
      record { in_order = v.in_order; level = v.level; others = v.others; armed = v.armed }
  Step-IsOrdered (take l ticks byte s got) v = take_lem l ticks byte s got v

  pub Reach-IsOrdered : {l l' : Line q} → IsOrdered l → Reach b l l' → IsOrdered l'
  Reach-IsOrdered v here = v
  Reach-IsOrdered v (next r step) = Step-IsOrdered step (Reach-IsOrdered v r)
