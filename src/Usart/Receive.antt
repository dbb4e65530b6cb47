-- ===== src/Usart/Receive.antt =====
-- The receiving side of MyDrivers/usart_driver_RTOS.c: from the interrupt to the reader.
use mathlib.Core.List.{append_assoc, append-nil}
use rtos_hm_board.Prelude.{
  ℕ, zero, suc, ◌≡◌, refl, ap, ◌∙◌, sym, arith, ltb, lt→ltb, dec_lt, if◌then◌else◌, false, List, [],
  ◌∷◌, ◌++◌, length, Option, none, some, List-cases, inl, inr,
}
use rtos_hm_board.Usart.{
  ByteQueue, UsartBits, Registers, UsartBuffer, rx_complete, get_byte, new_buffer, data_reg_empty,
}
use rtos_hm_board.Usart.Laws.{ByteQueueLaws}
use rtos_hm_board.Usart.Interleaving.{
  Line, Step, accept, refuse, load, store, transmit, receive, take, Reach, here, next,
}
use rtos_hm_board.Usart.Start.{started}

module _ {q : ByteQueue} (laws : ByteQueueLaws q) (b : UsartBits) where
  -- The received bytes that nobody has read.
  abbrev pub unread : UsartBuffer q → List ℕ
  unread s = laws.items s.queue_rx

  -- The byte that a step brings in, if the queue has room for it.
  unfoldable pub arrived : {l l' : Line q} → Step b l l' → List ℕ
  arrived (receive l byte) =
      if ltb (length (unread l.buffer)) (laws.capacity l.buffer.queue_rx) then byte ∷ [] else []
  arrived (accept l byte ticks at success) = []
  arrived (refuse l byte ticks at failed) = []
  arrived (load l at) = []
  arrived (store l temp at) = []
  arrived (transmit l on) = []
  arrived (take l ticks byte s got) = []

  -- The byte that a step hands to the reader.
  pub read : {l l' : Line q} → Step b l l' → List ℕ
  read (take l ticks byte s got) = byte ∷ []
  read (receive l byte) = []
  read (accept l byte ticks at success) = []
  read (refuse l byte ticks at failed) = []
  read (load l at) = []
  read (store l temp at) = []
  read (transmit l on) = []

  unfoldable pub all_arrived : {start l : Line q} → Reach b start l → List ℕ
  all_arrived here = []
  all_arrived (next r step) = all_arrived r ++ arrived step

  pub all_read : {start l : Line q} → Reach b start l → List ℕ
  all_read here = []
  all_read (next r step) = all_read r ++ read step

  data_reg_empty-unread : (s : UsartBuffer q) → unread (data_reg_empty q b s).0 ≡ unread s
  unfolding data_reg_empty
  data_reg_empty-unread s = ground arith

  -- What a read gives, and what it leaves.
  read_and_left : Option (ℕ × UsartBuffer q) → List ℕ
  read_and_left none = []
  read_and_left (some (byte, s)) = byte ∷ unread s

  get_byte-nil : (s : UsartBuffer q) (ticks : ℕ) → unread s ≡ [] → get_byte q b ticks s ≡ none
  unfolding get_byte
  get_byte-nil s ticks e = rw (laws.receive-nil ticks s.queue_rx e, get_byte) refl

  get_byte-cons :
      (s : UsartBuffer q) (ticks x : ℕ) (xs : List ℕ)
      → unread s ≡ x ∷ xs
      → (s' : UsartBuffer q) × (get_byte q b ticks s ≡ some (x, s')) × (unread s' ≡ xs)
  unfolding get_byte
  get_byte-cons s ticks x xs e =
      let (u, received, left) = laws.receive-cons ticks s.queue_rx x xs e in
      (record s { queue_rx = u }, rw (received, get_byte) refl, left)

  get_byte-unread :
      (s s' : UsartBuffer q) (ticks byte : ℕ)
      → get_byte q b ticks s ≡ some (byte, s')
      → unread s ≡ byte ∷ unread s'
  unfolding read_and_left
  get_byte-unread s s' ticks byte got = elim (List-cases (unread s)) [
    | inl nil ↦ let stopped = get_byte-nil s ticks nil in absurd (cc)
    | inr (x, xs, cons) ↦
        let (t, received, left) = get_byte-cons s ticks x xs cons in
        cons ∙ ap (λ t. x ∷ t) (sym left) ∙ ap read_and_left (sym received ∙ got)
  ]

  Step-unread :
      {l l' : Line q} (step : Step b l l')
      → unread l.buffer ++ arrived step ≡ read step ++ unread l'.buffer
  unfolding arrived read rx_complete
  Step-unread (receive l byte) =
      elim (dec_lt (length (unread l.buffer)) (laws.capacity l.buffer.queue_rx)) [
        | yes room ↦ rw (lt→ltb _ _ room) (sym (laws.isr-room byte l.buffer.queue_rx room).0)
        | no full ↦
            let closed : ltb (length (unread l.buffer)) (laws.capacity l.buffer.queue_rx) ≡ false =
              ground arith in
            rw closed (
              append-nil (unread l.buffer)
              ∙ sym (laws.isr-full byte l.buffer.queue_rx (omega arith)))
      ]
  Step-unread (take l ticks byte s got) =
      append-nil (unread l.buffer) ∙ get_byte-unread l.buffer s ticks byte got
  Step-unread (accept l byte ticks at success) = append-nil (unread l.buffer)
  Step-unread (refuse l byte ticks at failed) = append-nil (unread l.buffer)
  Step-unread (load l at) = append-nil (unread l.buffer)
  Step-unread (store l temp at) = append-nil (unread l.buffer)
  Step-unread (transmit l on) = append-nil (unread l.buffer) ∙ sym (data_reg_empty-unread l.buffer)

  Reach-unread :
      {start l : Line q} (r : Reach b start l)
      → unread start.buffer ++ all_arrived r ≡ all_read r ++ unread l.buffer
  unfolding all_arrived all_read
  Reach-unread {start} here = append-nil (unread start.buffer)
  Reach-unread {start} (next r step) =
      sym (append_assoc (unread start.buffer) (all_arrived r) (arrived step))
      ∙ ap (λ t. t ++ arrived step) (Reach-unread r)
      ∙ append_assoc (all_read r) _ (arrived step)
      ∙ ap (λ t. all_read r ++ t) (Step-unread step)
      ∙ sym (append_assoc (all_read r) (read step) _)

  -- `n` calls of `usartBufferGetByte`, up to one that finds nothing.
  pub read_bytes : ℕ → ℕ → UsartBuffer q → List ℕ
  read_bytes zero ticks s = []
  read_bytes (suc n) ticks s = elim (get_byte q b ticks s) [
    | none ↦ []
    | some (byte, s') ↦ byte ∷ read_bytes n ticks s'
  ]

  read_bytes-all :
      (xs : List ℕ) (ticks : ℕ) (s : UsartBuffer q)
      → unread s ≡ xs
      → read_bytes (length xs) ticks s ≡ xs
  unfolding read_bytes
  read_bytes-all [] ticks s e = refl
  read_bytes-all (x ∷ xs) ticks s e =
      let (s', received, left) = get_byte-cons s ticks x xs e in
      rw (received, read_bytes) (ap (λ t. x ∷ t) (read_bytes-all xs ticks s' left))

-- From the buffer that `usartBufferInitialize` fills in, wherever the interrupts, a reader and a
-- writing task lead: the bytes that have been read, and behind them those that as many calls of
-- `usartBufferGetByte` as bytes are unread give, are all bytes that the interrupt found room for, in
-- the order in which they came.
pub new_buffer-receives :
    {q : ByteQueue} (laws : ByteQueueLaws q) (b : UsartBits) (rate size ticks : ℕ) (r : Registers)
    {l : Line q} (reach : Reach b (started q b rate size r) l)
    → all_read laws b reach
        ++ read_bytes laws b (length (laws.items l.buffer.queue_rx)) ticks l.buffer
      ≡ all_arrived laws b reach
unfolding new_buffer
new_buffer-receives laws b rate size ticks r {l} reach =
    ap (λ t. all_read laws b reach ++ t) (read_bytes-all laws b _ ticks l.buffer refl)
    ∙ sym (Reach-unread laws b reach)
    ∙ ap (λ t. t ++ all_arrived laws b reach) (laws.items-create size)
