-- ===== src/Usart/Start.antt =====
-- What `usartBufferInitialize` of MyDrivers/usart_driver_RTOS.c leaves.
use mathlib.Core.List.{append-nil}
use rtos_hm_board.Prelude.{
  ℕ, ◌≡◌, inl, refl, ap, ap₂, suc, length, false, ◌∙◌, arith, bit_and, [], ◌++◌,
}
use rtos_hm_board.Prelude.Fields.{complement, set_field}
use rtos_hm_board.Usart.{ByteQueue, UsartBits, Registers, baudrate, baudrate_set, new_buffer}
use rtos_hm_board.Usart.Laws.{ByteQueueLaws, UsartBitsLaws, enabled}
use rtos_hm_board.Usart.Interleaving.{Line, idle, IsOrdered, Reach, Reach-IsOrdered}
use rtos_hm_board.Usart.Drain.{service, Reach-transmits}

baudrate-keeps :
    (q : ByteQueue) (b : UsartBits) (rate : ℕ) (r : Registers)
    → ((baudrate q b rate r).sent ≡ r.sent) × ((baudrate q b rate r).ctrla ≡ r.ctrla)
unfolding baudrate baudrate_set
baudrate-keeps q b rate r = (ground arith, ground arith)

-- The line of a buffer that has just been filled in.
abbrev pub started : (q : ByteQueue) → UsartBits → ℕ → ℕ → Registers → Line q
started q b rate size r = record {
  buffer = new_buffer q b rate size r;
  phase = idle;
  accepted = r.sent;
}

pub new_buffer-IsOrdered :
    {q : ByteQueue} (laws : ByteQueueLaws q) (b : UsartBits) (bits : UsartBitsLaws b)
    (rate size : ℕ) (r : Registers)
    → IsOrdered laws b bits
        (bit_and (set_field 8 r.ctrla b.rxcintlvl b.rxc_lo) (complement 8 b.dreintlvl))
        (started q b rate size r)
unfolding new_buffer
new_buffer-IsOrdered {q} laws b bits rate size r =
    let (sent, ctrla) = baudrate-keeps q b rate _ in
    record {
      in_order = ap₂ ◌++◌ sent (laws.items-create size) ∙ append-nil r.sent;
      level = refl;
      others = ap (λ t. bit_and t (complement 8 b.dreintlvl)) ctrla;
      armed = inl (laws.items-create size);
    }

-- From the buffer that `usartBufferInitialize` fills in, wherever the steps of a writing task and
-- the interrupts lead: once the task is outside of `usartBufferPutByte`, as many calls of the
-- handler as bytes wait, and one, bring every byte that the queue has accepted to the line, in
-- order, and leave the queue empty and the interrupt off. Meanwhile the bits of CTRLA beside that
-- interrupt's, among them the level of the receiver's, stay as they were set up.
pub new_buffer-transmits :
    {q : ByteQueue} (laws : ByteQueueLaws q) (b : UsartBits) (bits : UsartBitsLaws b)
    (rate size : ℕ) (r : Registers) {l : Line q}
    → Reach b (started q b rate size r) l
    → l.phase ≡ idle
    → let s = service b (suc (length (laws.items l.buffer.queue_tx))) l.buffer in
      (s.usart.sent ≡ l.accepted)
      × (laws.items s.queue_tx ≡ [])
      × (enabled b s.usart ≡ false)
      × (bit_and l.buffer.usart.ctrla (complement 8 b.dreintlvl)
          ≡ bit_and (set_field 8 r.ctrla b.rxcintlvl b.rxc_lo) (complement 8 b.dreintlvl))
new_buffer-transmits laws b bits rate size r reach at =
    let ordered = new_buffer-IsOrdered laws b bits rate size r in
    let (sent, empty, off) = Reach-transmits laws b bits _ ordered reach at in
    (sent, empty, off, (Reach-IsOrdered laws b bits _ ordered reach).others)
