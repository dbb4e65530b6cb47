-- ===== src/MainTask/Invariant.antt =====
-- The invariant of mainTask.c with its queue and the timer interrupts.
use mathlib.Core.List.{append_assoc}
use rtos_hm_board.Prelude.{
  ℕ, ◌<◌, ◌≡◌, refl, ap, ◌∙◌, sym, subst, Bool, true, List, [], ◌∷◌, ◌++◌, length, All, All-append,
  List-cases, inl, inr,
}
use rtos_hm_board.SpiMemory.{FloatOps}
use rtos_hm_board.SpiMemory.Bus.{SpiBus}
use rtos_hm_board.Clock.{tick}
use rtos_hm_board.Sampling.{sample}
use rtos_hm_board.Sampling.Run.{sample-stopped}
use rtos_hm_board.CspTask.{Packet, Event, EventQueue, QueueLaws, queue_length}
use rtos_hm_board.MainTask.{main_task_round}
use rtos_hm_board.MainTask.State.{Wait, Board, Action, Outcome, done, overflow, waiting}
use rtos_hm_board.MainTask.Answers.{Answers}
use rtos_hm_board.MainTask.Replies.{handle-Answers}
use rtos_hm_board.MainTask.Fulfils.{Fulfils, handle-Fulfils}
use rtos_hm_board.MainTask.System.{
  Answered, answer, System, IsHarmless, IsIdle, Step, take_in, drop_it, main_round,
  sampling_interrupt, clock_interrupt, Reach, here, next, IsAnswering,
}

-- What an outcome holds.
abbrev value : {A : Type 0} → A → Outcome A → A
value a (done x) = x
value a overflow = a
value a waiting = a

done_injective : {A : Type 0} (x y : A) → ◌≡◌ {A = Outcome A} (done x) (done y) → x ≡ y
done_injective x y e = ap (value x) e

module _ {q : EventQueue} (laws : QueueLaws q) {bus : SpiBus} (f : FloatOps) {Pin : Type 0}
    (toggle : Pin → Pin) (accepted_by : List Action → Bool) where
  -- A round with an empty queue does nothing.
  round-nil :
      (wait : Wait) (temp : ℕ) (u : q.Queue) (b : Board bus Pin)
      → laws.items u ≡ []
      → main_task_round f toggle accepted_by q wait temp (u, b) ≡ done (u, b)
  unfolding main_task_round
  round-nil wait temp u b e = rw (laws.receive-nil u e, main_task_round) refl

  -- The log has grown by exactly what an event asks for.
  abbrev pub Grows : Event → Board bus Pin → Board bus Pin → Type 0
  Grows e b b' =
      (actions : List Action) × (b'.log ≡ b.log ++ actions)
      × Fulfils f e.event_type e.packet actions

  -- A round with a harmless event in front answers it.
  pub round-cons :
      (wait : Wait) (temp : ℕ) (u : q.Queue) (b : Board bus Pin) (e : Event) (es : List Event)
      → laws.items u ≡ e ∷ es
      → IsHarmless e
      → (u' : q.Queue) × (b' : Board bus Pin) × (main_task_round f toggle accepted_by q wait temp
            (u, b)
          ≡ done (u', b'))
        × (laws.items u' ≡ es)
        × Answers e.packet true true b b'
        × Grows e b b'
  unfolding main_task_round
  round-cons wait temp u b e es first harmless =
      let (u', received, rest) = laws.receive-cons u e es first in
      let (b', handled, answers) =
        handle-Answers f toggle accepted_by wait temp e.event_type e.packet b harmless in
      let (b'', ends, actions, log_lem, fulfils) =
        handle-Fulfils f toggle accepted_by e.packet wait temp e.event_type b harmless in
      let same = done_injective b'' b' (sym ends ∙ handled) in
      (
        u',
        b',
        rw (received, main_task_round) (rw handled refl),
        rest,
        answers,
        subst (Grows e b) same (actions, log_lem, fulfils),
      )

  after-IsIdle :
      (p : Packet) (b b' : Board bus Pin) → Answers p true true b b' → IsIdle b → IsIdle b'
  after-IsIdle p b b' a (stopped, zeroed) =
      let (sampling, count, offset, timers) = a.counters_of in (sampling ∙ stopped, offset ∙ zeroed)

  -- One more answer.
  extended :
      {start : List Action} {es : List Event} (b b' : Board bus Pin) (e : Event)
      → Answered f start es b.log
      → Grows e b b'
      → Answered f start (es ++ (e ∷ [])) b'.log
  extended b b' e before (actions, log_lem, fulfils) = answer e actions before refl log_lem fulfils

  taken_lem :
      (start : List Action) (s : System q bus Pin) (e : Event) (ticks : ℕ)
      → IsHarmless e
      → length (laws.items s.queue) < queue_length
      → IsAnswering laws f toggle accepted_by start s
      → IsAnswering laws f toggle accepted_by start
          (record s { queue = q.send e ticks s.queue; accepted = s.accepted ++ (e ∷ []) })
  taken_lem start s e ticks harmless room v =
      let appended = laws.items-send e ticks s.queue room in
      record {
        handled = v.handled;
        in_order =
            ap (λ t. v.handled ++ t) appended
            ∙ sym (append_assoc v.handled (laws.items s.queue) (e ∷ []))
            ∙ ap (λ t. t ++ (e ∷ [])) v.in_order;
        answers = v.answers;
        harmless =
            subst (All IsHarmless) (sym appended)
              (All-append IsHarmless (laws.items s.queue) (e ∷ []) v.harmless (harmless, tt));
        idle = v.idle;
      }

  -- A change of the task's state that keeps the waiting events.
  same_queue :
      (start : List Action) (s : System q bus Pin) (u : q.Queue) (b : Board bus Pin)
      → laws.items u ≡ laws.items s.queue
      → b.log ≡ s.board.log
      → IsIdle b
      → IsAnswering laws f toggle accepted_by start s
      → IsAnswering laws f toggle accepted_by start (record s { queue = u; board = b })
  same_queue start s u b same log_lem idle v = record {
    handled = v.handled;
    in_order = ap (λ t. v.handled ++ t) same ∙ v.in_order;
    answers = subst (Answered f start v.handled) (sym log_lem) v.answers;
    harmless = subst (All IsHarmless) (sym same) v.harmless;
    idle = idle;
  }

  pub round_lem :
      (start : List Action) (s : System q bus Pin) (wait : Wait) (temp : ℕ) (u : q.Queue)
      (b : Board bus Pin)
      → main_task_round f toggle accepted_by q wait temp (s.queue, s.board) ≡ done (u, b)
      → IsAnswering laws f toggle accepted_by start s
      → IsAnswering laws f toggle accepted_by start (record s { queue = u; board = b })
  round_lem start s wait temp u b ran v = elim (List-cases (laws.items s.queue)) [
    | inl nil ↦
        let same = done_injective _ _ (sym (round-nil wait temp s.queue s.board nil) ∙ ran) in
        same_queue start s u b (ap (λ (x : q.Queue × Board bus Pin). laws.items x.0) (sym same))
          (ap (λ (x : q.Queue × Board bus Pin). x.1.log) (sym same))
          (subst (λ (x : q.Queue × Board bus Pin). IsIdle x.1) same v.idle) v
    | inr (e, es, cons) ↦
        let all_harmless = subst (All IsHarmless) cons v.harmless in
        let (u', b', round, items_lem, a, grows) =
          round-cons wait temp s.queue s.board e es cons all_harmless.0 in
        let same : ◌≡◌ {A = q.Queue × Board bus Pin} (u', b') (u, b) =
          done_injective _ _ (sym round ∙ ran) in
        let left : laws.items u ≡ es =
          ap (λ (x : q.Queue × Board bus Pin). laws.items x.0) (sym same) ∙ items_lem in
        record {
          handled = v.handled ++ (e ∷ []);
          in_order =
              ap (λ t. (v.handled ++ (e ∷ [])) ++ t) left
              ∙ append_assoc v.handled (e ∷ []) es
              ∙ sym (ap (λ t. v.handled ++ t) cons)
              ∙ v.in_order;
          answers =
              subst (Answered f start (v.handled ++ (e ∷ [])))
                (ap (λ (x : q.Queue × Board bus Pin). x.1.log) same)
                (extended s.board b' e v.answers grows);
          harmless = subst (All IsHarmless) (sym left) all_harmless.1;
          idle =
              subst (λ (x : q.Queue × Board bus Pin). IsIdle x.1) same
                (after-IsIdle e.packet s.board b' a v.idle);
        }
  ]

  Step-IsAnswering :
      (start : List Action) {s s' : System q bus Pin}
      → Step laws f toggle accepted_by s s'
      → IsAnswering laws f toggle accepted_by start s
      → IsAnswering laws f toggle accepted_by start s'
  Step-IsAnswering start (take_in s e ticks harmless room) v =
      taken_lem start s e ticks harmless room v
  Step-IsAnswering start (drop_it s e ticks full) v =
      same_queue start s (q.send e ticks s.queue) s.board
        (laws.items-send_full e ticks s.queue full) refl v.idle v
  Step-IsAnswering start (main_round s wait temp u b ran) v = round_lem start s wait temp u b ran v
  Step-IsAnswering start (sampling_interrupt s r) v =
      let same = sample-stopped bus toggle r s.board.sampler v.idle.0 in
      same_queue start s s.queue (record s.board { sampler = sample bus toggle r s.board.sampler })
        refl refl (ap (λ x. x.sampling) same ∙ v.idle.0, ap (λ x. x.offset) same ∙ v.idle.1) v
  Step-IsAnswering start (clock_interrupt s) v =
      same_queue start s s.queue (record s.board { timers = tick s.board.timers }) refl refl v.idle
        v

  pub Reach-IsAnswering :
      (start : List Action) {s s' : System q bus Pin}
      → IsAnswering laws f toggle accepted_by start s
      → Reach laws f toggle accepted_by s s'
      → IsAnswering laws f toggle accepted_by start s'
  Reach-IsAnswering start v here = v
  Reach-IsAnswering start v (next r step) =
      Step-IsAnswering start step (Reach-IsAnswering start v r)
