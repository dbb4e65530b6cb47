-- ===== src/Usart/Laws.antt =====
-- What the queues and the device header of MyDrivers/usart_driver_RTOS.c promise.
use rtos_hm_board.Prelude.{
  ℕ, ◌^◌, ◌≤◌, ◌<◌, ◌≡◌, ◌≢◌, refl, ap, ◌∙◌, sym, arith, ◌==◌, Bool, true, false, not, bit_and,
  List, [], ◌∷◌, ◌++◌, length, Option, none, some, dec_lt, inl, inr, Option-cases,
}
use rtos_hm_board.Usart.{
  ByteQueue, UsartBits, Registers, UsartBuffer, write_level, data_reg_empty, get_byte,
}

-- FreeRTOS's documentation of a queue: first in, first out, up to its capacity; a full queue that
-- nobody empties during the wait takes no byte.
pub record ByteQueueLaws (q : ByteQueue) : Type 0 where
  pub items : q.Queue → List ℕ
  pub capacity : q.Queue → ℕ
  pub items-create : (n : ℕ) → items (q.create n) ≡ []
  pub capacity-create : (n : ℕ) → capacity (q.create n) ≡ n
  pub send-room :
      (x ticks : ℕ) (u : q.Queue)
      → length (items u) < capacity u
      → (items (q.send_to_back x ticks u).0 ≡ items u ++ (x ∷ []))
        × ((q.send_to_back x ticks u).1 ≡ true)
        × (capacity (q.send_to_back x ticks u).0 ≡ capacity u)
  pub send-full :
      (x ticks : ℕ) (u : q.Queue)
      → capacity u ≤ length (items u)
      → q.send_to_back x ticks u ≡ (u, false)
  pub isr-room :
      (x : ℕ) (u : q.Queue)
      → length (items u) < capacity u
      → (items (q.send_from_isr x u).0 ≡ items u ++ (x ∷ []))
        × (capacity (q.send_from_isr x u).0 ≡ capacity u)
  pub isr-full :
      (x : ℕ) (u : q.Queue)
      → capacity u ≤ length (items u)
      → items (q.send_from_isr x u).0 ≡ items u
  pub receive-nil : (ticks : ℕ) (u : q.Queue) → items u ≡ [] → q.receive ticks u ≡ none
  pub receive-cons :
      (ticks : ℕ) (u : q.Queue) (x : ℕ) (xs : List ℕ)
      → items u ≡ x ∷ xs
      → (u' : q.Queue) × (q.receive ticks u ≡ some (x, u')) × (items u' ≡ xs)
  pub take-nil : (u : q.Queue) → items u ≡ [] → q.receive_from_isr u ≡ none
  pub take-cons :
      (u : q.Queue) (x : ℕ) (xs : List ℕ)
      → items u ≡ x ∷ xs
      → (u' : q.Queue) × (woken : Bool) × (q.receive_from_isr u ≡ some (x, u', woken))
        × (items u' ≡ xs)

-- The codes lie within the field of the interrupt's level; zero switches it off.
pub record UsartBitsLaws (b : UsartBits) : Type 0 where
  pub mask_in : b.dreintlvl < 2 ^ 8
  pub off_lem : b.dre_off ≡ 0
  pub lo_within : bit_and b.dre_lo b.dreintlvl ≡ b.dre_lo
  pub lo_on : b.dre_lo ≢ 0

-- The data register empty interrupt can fire.
abbrev pub enabled : UsartBits → Registers → Bool
enabled b r = not (bit_and r.ctrla b.dreintlvl == 0)

module _ {q : ByteQueue} (laws : ByteQueueLaws q) (b : UsartBits) where
  -- `USART_DataRegEmpty` on an empty queue, and on one with bytes.
  pub data_reg_empty-nil :
      (s : UsartBuffer q)
      → laws.items s.queue_tx ≡ []
      → (data_reg_empty q b s).0 ≡ write_level q b s.usart.ctrla b.dre_off s
  unfolding data_reg_empty
  data_reg_empty-nil s e = rw (laws.take-nil s.queue_tx e, data_reg_empty) refl

  pub data_reg_empty-cons :
      (s : UsartBuffer q) (x : ℕ) (xs : List ℕ)
      → laws.items s.queue_tx ≡ x ∷ xs
      → (u : q.Queue) × ((data_reg_empty q b s).0
          ≡ record s { queue_tx = u; usart = record s.usart { sent = s.usart.sent ++ (x ∷ []) } })
        × (laws.items u ≡ xs)
  unfolding data_reg_empty
  data_reg_empty-cons s x xs e =
      let (u, woken, taken, items_lem) = laws.take-cons s.queue_tx x xs e in
      (u, rw (taken, data_reg_empty) refl, items_lem)

  -- A send that reports success has appended the byte.
  pub send_accepted :
      (x ticks : ℕ) (u : q.Queue)
      → (q.send_to_back x ticks u).1 ≡ true
      → laws.items (q.send_to_back x ticks u).0 ≡ laws.items u ++ (x ∷ [])
  send_accepted x ticks u success = elim (dec_lt (length (laws.items u)) (laws.capacity u)) [
    | yes room ↦ (laws.send-room x ticks u room).0
    | no full ↦
        let refused = ap (λ (r : q.Queue × Bool). r.1) (laws.send-full x ticks u (omega arith)) in
        absurd (cc)
  ]

  -- One that reports failure has left the queue as it was.
  pub send_refused :
      (x ticks : ℕ) (u : q.Queue)
      → (q.send_to_back x ticks u).1 ≡ false
      → (q.send_to_back x ticks u).0 ≡ u
  send_refused x ticks u failed = elim (dec_lt (length (laws.items u)) (laws.capacity u)) [
    | yes room ↦ let success = (laws.send-room x ticks u room).1 in absurd (cc)
    | no full ↦ ap (λ (r : q.Queue × Bool). r.0) (laws.send-full x ticks u (omega arith))
  ]

  get_or_self : UsartBuffer q → Option (ℕ × UsartBuffer q) → UsartBuffer q
  get_or_self s none = s
  get_or_self s (some (x, t)) = t

  -- What a byte was read from changes the queue of received bytes only.
  pub get_byte-some :
      (s : UsartBuffer q) (ticks byte : ℕ) (s' : UsartBuffer q)
      → get_byte q b ticks s ≡ some (byte, s')
      → (u : q.Queue) × (record s { queue_rx = u } ≡ s')
  unfolding get_byte get_or_self
  get_byte-some s ticks byte s' got = elim (Option-cases (q.receive ticks s.queue_rx)) [
    | inl nothing ↦
        let stopped : get_byte q b ticks s ≡ none = rw (nothing, get_byte) refl in absurd (cc)
    | inr ((x, u), e) ↦
        let read : get_byte q b ticks s ≡ some (x, record s { queue_rx = u }) =
          rw (e, get_byte) refl in
        (u, ap (λ (o : Option (ℕ × UsartBuffer q)). (get_or_self s o)) (sym read ∙ got))
  ]
