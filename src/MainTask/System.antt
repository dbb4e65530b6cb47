-- ===== src/MainTask/System.antt =====
-- mainTask.c with the queue of events in front of it, and the timer interrupts of system.c.
use rtos_hm_board.Prelude.{ℕ, ◌≤◌, ◌<◌, ◌≡◌, ◌≢◌, Bool, false, List, [], ◌∷◌, ◌++◌, length, All}
use rtos_hm_board.SpiMemory.{FloatOps}
use rtos_hm_board.SpiMemory.Bus.{SpiBus}
use rtos_hm_board.Clock.{tick}
use rtos_hm_board.Sampling.{Readings, sample}
use rtos_hm_board.CspTask
use rtos_hm_board.CspTask.{Event, EventQueue, QueueLaws, queue_length}
use rtos_hm_board.MainTask.{main_task_round}
use rtos_hm_board.MainTask.State.{Wait, Board, Action, done}
use rtos_hm_board.MainTask.Fulfils.{Fulfils}

-- The log from `start` on is made of exactly what the events ask for, one after the other.
pub data Answered (f : FloatOps) (start : List Action) : List Event → List Action → Type 0 where
  nothing : {log : List Action} → log ≡ start → Answered f start [] log
  answer :
      {es es' : List Event} {log log' : List Action} (e : Event) (actions : List Action)
      → Answered f start es log
      → es' ≡ es ++ (e ∷ [])
      → log' ≡ log ++ actions
      → Fulfils f e.event_type e.packet actions
      → Answered f start es' log'

-- The queue, the board of the main task, and the events that the queue has taken.
pub record System (q : EventQueue) (bus : SpiBus) (Pin : Type 0) : Type 0 where
  pub queue : q.Queue
  pub board : Board bus Pin
  pub accepted : List Event

abbrev pub IsHarmless : Event → Type 0
IsHarmless e = e.event_type ≢ CspTask.process_all

-- No measurement goes on, and the sum of the next one will begin at 0.
abbrev pub IsIdle : {bus : SpiBus} {Pin : Type 0} → Board bus Pin → Type 0
IsIdle b = (b.sampler.sampling ≡ false) × (b.sampler.offset ≡ 0)

module _ {q : EventQueue} (laws : QueueLaws q) {bus : SpiBus} (f : FloatOps) {Pin : Type 0}
    (toggle : Pin → Pin) (accepted_by : List Action → Bool) where
  -- `xQueueSend` of an event with or without room in the queue, a round of the main task, or an
  -- interrupt of one of the two timers of system.c.
  pub data Step : System q bus Pin → System q bus Pin → Type 0 where
    take_in :
        (s : System q bus Pin) (e : Event) (ticks : ℕ)
        → IsHarmless e
        → length (laws.items s.queue) < queue_length
        → Step s (record s { queue = q.send e ticks s.queue; accepted = s.accepted ++ (e ∷ []) })
    drop_it :
        (s : System q bus Pin) (e : Event) (ticks : ℕ)
        → queue_length ≤ length (laws.items s.queue)
        → Step s (record s { queue = q.send e ticks s.queue })
    main_round :
        (s : System q bus Pin) (wait : Wait) (temp : ℕ) (u : q.Queue) (b : Board bus Pin)
        → main_task_round f toggle accepted_by q wait temp (s.queue, s.board) ≡ done (u, b)
        → Step s (record s { queue = u; board = b })
    sampling_interrupt :
        (s : System q bus Pin) (r : Readings)
        → Step s
            (record s { board = record s.board { sampler = sample bus toggle r s.board.sampler } })
    clock_interrupt :
        (s : System q bus Pin)
        → Step s (record s { board = record s.board { timers = tick s.board.timers } })

  pub data Reach (start : System q bus Pin) : System q bus Pin → Type 0 where
    here : Reach start start
    next : {s s' : System q bus Pin} → Reach start s → Step s s' → Reach start s'

  -- Each accepted event has been answered or waits, in order.
  pub record IsAnswering (start : List Action) (s : System q bus Pin) : Type 0 where
    pub handled : List Event
    pub in_order : handled ++ laws.items s.queue ≡ s.accepted
    pub answers : Answered f start handled s.board.log
    pub harmless : All IsHarmless (laws.items s.queue)
    pub idle : IsIdle s.board
