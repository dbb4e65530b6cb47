-- ===== src/Tests/Serial.antt =====
-- A serial line with queues of four bytes.
use rtos_hm_board.Prelude.{
  ℕ, suc, ◌≤◌, ◌<◌, ◌≡◌, refl, arith, ap, List, [], ◌∷◌, ◌++◌, length, Bool, true, false, bit_and,
  Option, none, some, ltb, lt→ltb, if◌then◌else◌,
}
use rtos_hm_board.Prelude.Fields.{complement, set_field}
use rtos_hm_board.Usart.{
  ByteQueue, UsartBits, Registers, put_byte, data_reg_empty, queue_byte, write_level, new_buffer,
  baudrate, baudrate_set, rx_complete, get_byte,
}
use rtos_hm_board.Usart.Laws.{ByteQueueLaws, UsartBitsLaws, enabled}
use rtos_hm_board.Usart.Interleaving.{
  Line, idle, queued, Reach, here, next, accept, load, store, transmit, receive, take,
}
use rtos_hm_board.Usart.Drain.{service}
use rtos_hm_board.Usart.Receive.{all_read, all_arrived, arrived, read_bytes, new_buffer-receives}
use rtos_hm_board.Usart.Start.{started, new_buffer-transmits}

-- A capacity with the bytes.
abbrev Bounded : Type 0
Bounded = ℕ × List ℕ

abbrev push : ℕ → Bounded → Bounded × Bool
push x (n, xs) = if ltb (length xs) n then ((n, xs ++ (x ∷ [])), true) else ((n, xs), false)

abbrev pop : Bounded → Option (ℕ × Bounded)
pop (n, []) = none
pop (n, x ∷ xs) = some (x, (n, xs))

abbrev pop_isr : Bounded → Option (ℕ × Bounded × Bool)
pop_isr (n, []) = none
pop_isr (n, x ∷ xs) = some (x, (n, xs), false)

abbrev queue : ByteQueue
queue = record {
  Queue = Bounded;
  create = λ n. (n, []);
  send_to_back = λ x ticks u. push x u;
  send_from_isr = push;
  receive = λ ticks u. pop u;
  receive_from_isr = pop_isr;
}

push-room : (x : ℕ) (u : Bounded) → length u.1 < u.0 → push x u ≡ ((u.0, u.1 ++ (x ∷ [])), true)
push-room x (n, xs) room =
    ap (λ c. if c then ((n, xs ++ (x ∷ [])), true) else ((n, xs), false))
      (lt→ltb (length xs) n room)

push-full : (x : ℕ) (u : Bounded) → u.0 ≤ length u.1 → push x u ≡ (u, false)
push-full x (n, xs) full =
    let closed : ltb (length xs) n ≡ false = ground arith in
    ap (λ c. if c then ((n, xs ++ (x ∷ [])), true) else ((n, xs), false)) closed

abbrev queue_laws : ByteQueueLaws queue
queue_laws = record {
  items = λ u. u.1;
  capacity = λ u. u.0;
  items-create = λ n. refl;
  capacity-create = λ n. refl;
  send-room = λ x ticks u room.
      let e = push-room x u room in (ap (λ r. r.0.1) e, ap (λ r. r.1) e, ap (λ r. r.0.0) e);
  send-full = λ x ticks u full. push-full x u full;
  isr-room = λ x u room. let e = push-room x u room in (ap (λ r. r.0.1) e, ap (λ r. r.0.0) e);
  isr-full = λ x u full. ap (λ r. r.0.1) (push-full x u full);
  receive-nil = λ ticks u e. ap (λ xs. pop (u.0, xs)) e;
  receive-cons = λ ticks u x xs e. ((u.0, xs), ap (λ t. pop (u.0, t)) e, refl);
  take-nil = λ u e. ap (λ xs. pop_isr (u.0, xs)) e;
  take-cons = λ u x xs e. ((u.0, xs), false, ap (λ t. pop_isr (u.0, t)) e, refl);
}

abbrev bits : UsartBits
bits = record {
  dreintlvl = 3;
  dre_off = 0;
  dre_lo = 1;
  rxcintlvl = 48;
  rxc_lo = 16;
  rxen = 16;
  txen = 8;
  chsize_8bit = 3;
  pmode_disabled = 0;
  sbmode = 8;
  bscale0 = 4;
}

bits_laws : UsartBitsLaws bits
bits_laws = record {
  mask_in = omega arith;
  off_lem = refl;
  lo_within = refl;
  lo_on = λ e. omega arith;
}

abbrev registers : Registers
registers = record { ctrla = 0; ctrlb = 0; ctrlc = 0; baudctrla = 0; baudctrlb = 0; sent = [] }

abbrev fresh : Line queue
fresh = started queue bits 1 4 registers

-- One byte has been put and the next is in the queue when the interrupt comes.
abbrev first : Line queue
first = record { buffer = put_byte queue bits 65 0 fresh.buffer; phase = idle; accepted = 65 ∷ [] }

abbrev second : Line queue
second = record {
  buffer = (queue_byte queue bits 66 0 first.buffer).0;
  phase = queued;
  accepted = 65 ∷ 66 ∷ [];
}

abbrev third : Line queue
third = record second { buffer = (data_reg_empty queue bits second.buffer).0 }

abbrev fourth : Line queue
fourth = record {
  buffer = write_level queue bits third.buffer.usart.ctrla third.buffer.dre_int_level third.buffer;
  phase = idle;
  accepted = 65 ∷ 66 ∷ [];
}

run : Reach bits fresh fourth
unfolding new_buffer put_byte data_reg_empty baudrate baudrate_set
run =
    let put =
      next (next (next here (accept fresh 65 0 refl refl)) (load _ refl)) (store _ _ refl) in
    let interrupted = next (next put (accept first 66 0 refl refl)) (transmit second refl) in
    next (next interrupted (load third refl)) (store _ _ refl)

new_buffer-transmits_example :
    let s = service bits (suc (length fourth.buffer.queue_tx.1)) fourth.buffer in
    (s.usart.sent ≡ 65 ∷ 66 ∷ [])
    × (s.queue_tx.1 ≡ [])
    × (enabled bits s.usart ≡ false)
    × (bit_and fourth.buffer.usart.ctrla (complement 8 3)
        ≡ bit_and (set_field 8 0 48 16) (complement 8 3))
new_buffer-transmits_example = new_buffer-transmits queue_laws bits bits_laws 1 4 registers run refl

-- Two bytes come, and the first one is read.
abbrev heard : Line queue
heard = record fresh {
  buffer = (rx_complete queue bits 8 (rx_complete queue bits 7 fresh.buffer).0).0;
}

abbrev reader : Line queue
reader = record heard { buffer = record heard.buffer { queue_rx = (4, 8 ∷ []) } }

listening : Reach bits fresh reader
unfolding new_buffer rx_complete get_byte baudrate baudrate_set
listening = next (next (next here (receive fresh 7)) (receive _ 8)) (take heard 0 7 _ refl)

new_buffer-receives_example :
    all_read queue_laws bits listening ++ read_bytes queue_laws bits 1 0 reader.buffer
    ≡ all_arrived queue_laws bits listening
unfolding new_buffer rx_complete
new_buffer-receives_example = new_buffer-receives queue_laws bits 1 4 0 registers listening

both_bytes : all_arrived queue_laws bits listening ≡ 7 ∷ 8 ∷ []
unfolding listening all_arrived arrived new_buffer rx_complete get_byte baudrate baudrate_set
both_bytes = refl
