-- ===== src/MainTask/Answers.antt =====
-- What it means that the actions of a handler of mainTask.c answer a packet.
use rtos_hm_board.Prelude.{
  ◌≡◌, refl, Bool, true, false, List, [], ◌∷◌, ◌++◌, All, All-append, ap, ◌∙◌, sym,
}
use mathlib.Core.List.{append_assoc, append-nil}
use rtos_hm_board.SpiMemory.Bus.{SpiBus}
use rtos_hm_board.CspTask.{Packet}
use rtos_hm_board.MainTask.State.{
  Board, Action, Outcome, done, reply, clock_off, clock_on, delay_ms, task_delay, note,
}

-- Timer TCC0, which drives the RTOS, after some actions.
abbrev pub clock_after : Bool → List Action → Bool
clock_after c [] = c
clock_after c (a ∷ rest) = elim a [
  | reply src sport dport text timeout ↦ clock_after c rest
  | clock_off ↦ clock_after false rest
  | clock_on ↦ clock_after true rest
  | delay_ms n ↦ clock_after c rest
  | task_delay n ↦ clock_after c rest
]

-- Of the replies, only those to the sender of a packet, from the port that it was sent to.
abbrev pub IsAnswer : Packet → Action → Type 0
IsAnswer p (reply src sport dport text timeout) =
    (src ≡ p.src) × (sport ≡ p.sport) × (dport ≡ p.dport)
IsAnswer p clock_off = Unit
IsAnswer p clock_on = Unit
IsAnswer p (delay_ms n) = Unit
IsAnswer p (task_delay n) = Unit

clock_after-append :
    (c : Bool) (xs ys : List Action) → clock_after c (xs ++ ys) ≡ clock_after (clock_after c xs) ys
clock_after-append c [] ys = refl
clock_after-append c (reply _ _ _ _ _ ∷ xs) ys = clock_after-append c xs ys
clock_after-append c (clock_off ∷ xs) ys = clock_after-append false xs ys
clock_after-append c (clock_on ∷ xs) ys = clock_after-append true xs ys
clock_after-append c (delay_ms _ ∷ xs) ys = clock_after-append c xs ys
clock_after-append c (task_delay _ ∷ xs) ys = clock_after-append c xs ys

module _ {bus : SpiBus} {Pin : Type 0} (p : Packet) where
  -- No measurement begins, goes on or ends, and no counter of the uptime moves, from one board to
  -- the next.
  abbrev pub SameCounters : Board bus Pin → Board bus Pin → Type 0
  SameCounters b b' =
      (b'.sampler.sampling ≡ b.sampler.sampling)
      × (b'.sampler.count ≡ b.sampler.count)
      × (b'.sampler.offset ≡ b.sampler.offset)
      × (b'.timers ≡ b.timers)

  -- From one board to the next: what was done answers the packet, and takes the timer from one
  -- state to another.
  pub record Answers (c c' : Bool) (b b' : Board bus Pin) : Type 0 where
    pub actions : List Action
    pub log_of : b'.log ≡ b.log ++ actions
    pub are_answers : All (IsAnswer p) actions
    pub clock_of : clock_after c actions ≡ c'
    pub counters_of : SameCounters b b'

  pub same_log :
      {b b' : Board bus Pin} (c : Bool) → b'.log ≡ b.log → SameCounters b b' → Answers c c b b'
  same_log {b = b} c e counters = record {
    actions = [];
    log_of = e ∙ sym (append-nil b.log);
    are_answers = tt;
    clock_of = refl;
    counters_of = counters;
  }

  pub one :
      {b : Board bus Pin} (c : Bool) (a : Action)
      → IsAnswer p a
      → Answers c (clock_after c (a ∷ [])) b (note a b)
  one c a h = record {
    actions = a ∷ [];
    log_of = refl;
    are_answers = (h, tt);
    clock_of = refl;
    counters_of = (refl, refl, refl, refl);
  }

  pub both :
      {c c' c'' : Bool} {b b' b'' : Board bus Pin}
      → Answers c c' b b'
      → Answers c' c'' b' b''
      → Answers c c'' b b''
  both {c = c} {b = b} h k = record {
    actions = h.actions ++ k.actions;
    log_of = k.log_of ∙ ap (λ l. l ++ k.actions) h.log_of ∙ append_assoc b.log h.actions k.actions;
    are_answers = All-append (IsAnswer p) h.actions k.actions h.are_answers k.are_answers;
    clock_of =
        clock_after-append c h.actions k.actions
        ∙ ap (λ x. clock_after x k.actions) h.clock_of
        ∙ k.clock_of;
    counters_of =
        let (sampling, count, offset, timers) = h.counters_of in
        let (sampling', count', offset', timers') = k.counters_of in
        (sampling' ∙ sampling, count' ∙ count, offset' ∙ offset, timers' ∙ timers);
  }

  -- The handler comes to an end, and what it did answers the packet.
  abbrev pub Finishes : Bool → Bool → Board bus Pin → Outcome (Board bus Pin) → Type 0
  Finishes c c' b o = (b' : Board bus Pin) × (o ≡ done b') × Answers c c' b b'

  pub after :
      {c c' c'' : Bool} {b b' : Board bus Pin} {o : Outcome (Board bus Pin)}
      → Answers c c' b b'
      → Finishes c' c'' b' o
      → Finishes c c'' b o
  after h (b'', e, k) = (b'', e, both h k)
