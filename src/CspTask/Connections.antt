-- ===== src/CspTask/Connections.antt =====
-- The loop of cspTask.c over several connections.
use rtos_hm_board.Prelude.{
  ℕ, ◌+◌, ◌<◌, ◌≡◌, refl, arith, List, [], ◌∷◌, ◌++◌, Option, none, some, map, length, ap, ◌∙◌, sym,
  ◌⊎◌,
}
use mathlib.Core.List.{append_assoc, append-nil}
use native.Mathlib.Decide.{dec_lt}
use rtos_hm_board.CspTask.{
  EventType, Packet, Event, EventQueue, QueueLaws, EventPointer, HoldsEvents, CspState,
  queue_length, dispatch, read_packets, handle_connection, csp_task,
}
use rtos_hm_board.CspTask.Dispatch.{
  Asks, event, fill, fill-full, fill-nil, fill-cons, read_packets-Asks, read_packets-other,
}

fill-append : (held es more : List Event) → fill held (es ++ more) ≡ fill (fill held es) more
fill-append held [] more = ap (λ h. fill h more) (sym (fill-nil held))
fill-append held (e ∷ es) more = elim (dec_lt (length held) queue_length) [
  | yes room ↦
      fill-cons held e (es ++ more) room
      ∙ fill-append (held ++ (e ∷ [])) es more
      ∙ ap (λ h. fill h more) (sym (fill-cons held e es room))
  | no full ↦
      fill-full held (e ∷ (es ++ more)) (omega arith)
      ∙ sym (fill-full held more (omega arith))
      ∙ ap (λ h. fill h more) (sym (fill-full held (e ∷ es) (omega arith)))
]

read_packets-closed :
    (q : EventQueue) (m : EventPointer) (n : ℕ) (ps : List Packet) (s : CspState q m)
    → (read_packets q m n ps s).closed ≡ s.closed
unfolding read_packets
read_packets-closed q m n [] s = refl
read_packets-closed q m n (p ∷ ps) s =
    read_packets-closed q m n ps (dispatch q m n p s) ∙ unfold dispatch in ground arith

module _ {q : EventQueue} (laws : QueueLaws q) {m : EventPointer} (holds : HoldsEvents m) where
  -- What connections ask for: the events, the packets for the service handler, and the number of
  -- connections.
  pub data Wants : List (Option (ℕ × List Packet)) → List Event → List Packet → ℕ → Type 0 where
    nothing : Wants [] [] [] 0
    timeout :
        {cs : List (Option (ℕ × List Packet))} {es : List Event} {ps : List Packet} {k : ℕ}
        → Wants cs es ps k
        → Wants (none ∷ cs) es ps k
    events :
        {cs : List (Option (ℕ × List Packet))} {es es' : List Event} {ps : List Packet} {k k' : ℕ}
        {n : ℕ} {taken : List Packet} (e : EventType)
        → Asks n e
        → Wants cs es ps k
        → es' ≡ map (event e) taken ++ es
        → k' ≡ k + 1
        → Wants (some (n, taken) ∷ cs) es' ps k'
    service :
        {cs : List (Option (ℕ × List Packet))} {es : List Event} {ps ps' : List Packet} {k k' : ℕ}
        {n : ℕ} {taken : List Packet}
        → (n < 15) ⊎ (22 < n)
        → Wants cs es ps k
        → ps' ≡ taken ++ ps
        → k' ≡ k + 1
        → Wants (some (n, taken) ∷ cs) es ps' k'

  -- If the pointer `newEvent`, which is never initialised, happens to lead to memory that holds what
  -- is written to it: in any number of rounds of the task, as long as the main task takes nothing
  -- from the queue, the packets to the ports 15 to 22 become events, over all connections in order, as far as the queue
  -- of ten has room, and the others of them are dropped; the packets to other ports go to the
  -- service handler in order; each connection is closed once; and where `csp_accept` returns NULL
  -- nothing happens.
  pub csp_task-Wants :
      {cs : List (Option (ℕ × List Packet))} {es : List Event} {ps : List Packet} {k : ℕ}
      (s : CspState q m)
      → Wants cs es ps k
      → (laws.items (csp_task q m cs s).queue ≡ fill (laws.items s.queue) es)
        × ((csp_task q m cs s).serviced ≡ s.serviced ++ ps)
        × ((csp_task q m cs s).closed ≡ s.closed + k)
  unfolding csp_task handle_connection
  csp_task-Wants s nothing =
      (sym (fill-nil (laws.items s.queue)), sym (append-nil s.serviced), omega arith)
  csp_task-Wants s (timeout w) = csp_task-Wants s w
  csp_task-Wants s (events {cs} {es} {ps = ps} {n = n} {taken = taken} e a w all one) =
      let s1 = handle_connection q m n taken s in
      let (queued, given) = read_packets-Asks laws holds n e taken s a in
      let (rest_queue, rest_serviced, rest_closed) = csp_task-Wants s1 w in
      let closed_lem = read_packets-closed q m n taken s in
      (
        rest_queue
            ∙ ap (λ h. fill h es) queued
            ∙ sym (fill-append (laws.items s.queue) (map (event e) taken) es)
            ∙ ap (fill (laws.items s.queue)) (sym all),
        rest_serviced ∙ ap (λ h. h ++ ps) given,
        omega arith,
      )
  csp_task-Wants s (service {cs} {es} {ps} {n = n} {taken = taken} h w all one) =
      let s1 = handle_connection q m n taken s in
      let (queued, given) = read_packets-other laws holds n taken s h in
      let (rest_queue, rest_serviced, rest_closed) = csp_task-Wants s1 w in
      let closed_lem = read_packets-closed q m n taken s in
      (
        rest_queue ∙ ap (λ u. fill (laws.items u) es) queued,
        rest_serviced
            ∙ ap (λ h. h ++ ps) given
            ∙ append_assoc s.serviced taken ps
            ∙ ap (λ t. s.serviced ++ t) (sym all),
        omega arith,
      )
