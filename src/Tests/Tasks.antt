-- ===== src/Tests/Tasks.antt =====
-- The two tasks on concrete events, with a queue that is a list.
use rtos_hm_board.Prelude.{
  ◌≡◌, ◌≢◌, refl, arith, List, [], ◌∷◌, ◌++◌, Option, none, some, Bool, true, false, not, map,
  length, ltb, ℕ, inl, if◌then◌else◌, ap,
}
use rtos_hm_board.Clock.{cleared}
use rtos_hm_board.CspTask
use rtos_hm_board.CspTask.{
  EventType, Packet, Event, EventQueue, QueueLaws, EventPointer, HoldsEvents, CspState,
  queue_length, read_packets, csp_task,
}
use rtos_hm_board.CspTask.Dispatch.{fill, event, port_19}
use rtos_hm_board.CspTask.Connections.{csp_task-Wants, events, timeout, service, nothing}
use rtos_hm_board.MainTask.{handle}
use rtos_hm_board.MainTask.State.{Wait, Board, done, Action}
use rtos_hm_board.MainTask.Answers.{Answers}
use rtos_hm_board.MainTask.Replies.{handle-Answers}
use rtos_hm_board.Tests.Chip.{bus}
use rtos_hm_board.Tests.Floats.{floats}
use rtos_hm_board.Tests.Memory.{spi}

abbrev pub push : Event → List Event → List Event
push e u = if ltb (length u) queue_length then u ++ (e ∷ []) else u

abbrev pub pop : List Event → Option (Event × List Event)
pop [] = none
pop (e ∷ es) = some (e, es)

abbrev pub queue : EventQueue
queue = record { Queue = List Event; send = λ e ticks u. push e u; receive = pop }

abbrev pub queue_laws : QueueLaws queue
queue_laws = record {
  items = λ u. u;
  items-send = λ e ticks u h. ground arith;
  items-send_full = λ e ticks u h. ground arith;
  receive-nil = λ u h. ap pop h;
  receive-cons = λ u e es h. (es, ap pop h, refl);
}

abbrev pub packet : Packet
packet = record { src = 10; sport = 40; dport = 19; bytes = 1 ∷ 2 ∷ [] }

-- A pointer to memory, which held an event before.
abbrev pub pointer : EventPointer
pointer = record {
  Place = Event;
  write_type = λ e x. record x { event_type = e };
  write_packet = λ p x. record x { packet = p };
  read = λ x. x;
}

abbrev pub pointer_holds : HoldsEvents pointer
pointer_holds = record { read-write = λ e p x. refl }

abbrev pub csp : CspState queue pointer
csp = record { place = event CspTask.echo_back packet; queue = []; serviced = []; closed = 0 }

-- Two packets for the signal, a timeout, and a ping.
abbrev connections : List (Option (ℕ × List Packet))
connections = some (19, packet ∷ packet ∷ []) ∷ none ∷ some (1, packet ∷ []) ∷ []

abbrev two_events : List Event
two_events = map (event CspTask.send_signal) (packet ∷ packet ∷ [])

csp_task-Wants_example :
    ((csp_task queue pointer connections csp).queue ≡ fill [] two_events)
    × ((csp_task queue pointer connections csp).serviced ≡ packet ∷ [])
    × ((csp_task queue pointer connections csp).closed ≡ 2)
csp_task-Wants_example = csp_task-Wants queue_laws pointer_holds csp (
    events CspTask.send_signal (port_19 refl)
      (timeout (service (inl (omega arith)) nothing refl refl)) refl refl)

abbrev pub board : Board bus Bool
board = record {
  sampler = record { sampling = false; count = 0; offset = 0; spi = spi; power = false };
  timers = cleared;
  log = [];
}

abbrev pub no_wait : Wait
no_wait = record { during = []; after = []; rereads = false }

abbrev pub every_time : List Action → Bool
every_time log = true

other : CspTask.send_signal ≢ CspTask.process_all
other e = absurd (cc)

handle-Answers_example :
    (b' : Board bus Bool) × (handle floats not every_time no_wait 3200 CspTask.send_signal packet
        board
      ≡ done b')
    × Answers packet true true board b'
handle-Answers_example =
    handle-Answers floats not every_time no_wait 3200 CspTask.send_signal packet board other
