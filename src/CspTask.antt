-- ===== src/CspTask.antt =====
-- cspTask.c and cspTask.h: incoming packets become events of the main task's queue.
pub mod Dispatch
pub mod Connections
use rtos_hm_board.Prelude.{
  ℕ, zero, suc, ◌+◌, ◌<◌, ◌==◌, if◌then◌else◌, List, [], ◌∷◌, ◌++◌, Option, none, some, ◌≡◌, length,
  Bool, true, false, ◌≤◌,
}

-- `eCSPEvent_t`
pub data EventType : Type 0 where
  echo_back free_heap house_keeping process_all send_signal send_fft send_summary_info
        send_attenuation :
      EventType

-- A packet of the CSP library: what the code reads of its identifier, and its data.
pub record Packet : Type 0 where
  pub src : ℕ
  pub sport : ℕ
  pub dport : ℕ
  pub bytes : List ℕ

-- `xCSPStackEvent_t`
pub record Event : Type 0 where
  pub event_type : EventType
  pub packet : Packet

-- `xQueueSend` and `xQueueReceive` of FreeRTOS for `xCSPEventQueue`. The number is the ticks to
-- wait; the code does not look at what `xQueueSend` returns.
pub record EventQueue : Type 1 where
  pub Queue : Type 0
  pub send : Event → ℕ → Queue → Queue
  pub receive : Queue → Option (Event × Queue)

-- The number of events that the code asks for in `xQueueCreate`.
abbrev pub queue_length : ℕ
queue_length = 10

-- FreeRTOS's documentation of a queue: first in, first out; a full queue that nobody empties during
-- the wait takes no event.
pub record QueueLaws (q : EventQueue) : Type 0 where
  pub items : q.Queue → List Event
  pub items-send :
      (e : Event) (ticks : ℕ) (u : q.Queue)
      → length (items u) < queue_length
      → items (q.send e ticks u) ≡ items u ++ (e ∷ [])
  pub items-send_full :
      (e : Event) (ticks : ℕ) (u : q.Queue)
      → queue_length ≤ length (items u)
      → items (q.send e ticks u) ≡ items u
  pub receive-nil : (u : q.Queue) → items u ≡ [] → q.receive u ≡ none
  pub receive-cons :
      (u : q.Queue) (e : Event) (es : List Event)
      → items u ≡ e ∷ es
      → (u' : q.Queue) × (q.receive u ≡ some (e, u')) × (items u' ≡ es)

-- The pointer `newEvent`, which is never initialised: what lies where it points, what the assignments
-- through it do there, and what `xQueueSend` copies from there.
pub record EventPointer : Type 1 where
  pub Place : Type 0
  pub write_type : EventType → Place → Place
  pub write_packet : Packet → Place → Place
  pub read : Place → Event

-- That the pointer happens to lead to memory which holds what is written to it.
pub record HoldsEvents (m : EventPointer) : Type 0 where
  pub read-write :
      (e : EventType) (p : Packet) (x : m.Place)
      → m.read (m.write_packet p (m.write_type e x)) ≡ record { event_type = e; packet = p }

-- What the task has done: what lies at `newEvent`, the queue, the packets given to `csp_service_handler`, and the number of
-- connections closed.
pub record CspState (q : EventQueue) (m : EventPointer) : Type 0 where
  pub place : m.Place
  pub queue : q.Queue
  pub serviced : List Packet
  pub closed : ℕ

module _ (q : EventQueue) (m : EventPointer) where
  -- The assignments through `newEvent` and the call of `xQueueSend`.
  abbrev post : EventType → Packet → ℕ → CspState q m → CspState q m
  post e p ticks s =
      let place = m.write_packet p (m.write_type e s.place) in
      record s { place = place; queue = q.send (m.read place) ticks s.queue }

  -- The `switch` on the connection's destination port.
  unfoldable pub dispatch : ℕ → Packet → CspState q m → CspState q m
  dispatch dport p s =
      if dport == 15
      then post echo_back p 100 s
      else (if dport == 16
          then post free_heap p 100 s
          else (if dport == 17
              then post house_keeping p 10 s
              else (if dport == 18
                  then post process_all p 100 s
                  else (if dport == 19
                      then post send_signal p 100 s
                      else (if dport == 20
                          then post send_fft p 100 s
                          else (if dport == 21
                              then post send_summary_info p 100 s
                              else (if dport == 22
                                  then post send_attenuation p 100 s
                                  else record s { serviced = s.serviced ++ (p ∷ []) })))))))

  -- The inner loop: the packets that `csp_read` returns before it returns NULL.
  unfoldable pub read_packets : ℕ → List Packet → CspState q m → CspState q m
  read_packets dport [] s = s
  read_packets dport (p ∷ ps) s = read_packets dport ps (dispatch dport p s)

  -- One connection from `csp_accept` to `csp_close`.
  unfoldable pub handle_connection : ℕ → List Packet → CspState q m → CspState q m
  handle_connection dport ps s =
      let s' = read_packets dport ps s in record s' { closed = s'.closed + 1 }

  -- The loop of the task, on what `csp_accept` returns: NULL, or a connection with its destination
  -- port and its packets.
  unfoldable pub csp_task : List (Option (ℕ × List Packet)) → CspState q m → CspState q m
  csp_task [] s = s
  csp_task (none ∷ cs) s = csp_task cs s
  csp_task (some (dport, ps) ∷ cs) s = csp_task cs (handle_connection dport ps s)
