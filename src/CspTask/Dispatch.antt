-- ===== src/CspTask/Dispatch.antt =====
-- Which packets of cspTask.c reach the main task's queue, and in what order.
use rtos_hm_board.Prelude.{
  ℕ, zero, suc, ◌-◌, ◌≤◌, ◌<◌, ◌≡◌, refl, arith, List, [], ◌∷◌, ◌++◌, map, length, length-append,
  take, ap, ◌∙◌, sym, ◌⊎◌,
}
use mathlib.Core.List.{append_assoc, append-nil}
use native.Mathlib.Decide.{dec_lt}
use rtos_hm_board.CspTask.{
  EventType, Packet, Event, EventQueue, QueueLaws, EventPointer, HoldsEvents, CspState,
  queue_length, echo_back, free_heap, house_keeping, process_all, send_signal, send_fft,
  send_summary_info, send_attenuation, dispatch, read_packets,
}

abbrev pub event : EventType → Packet → Event
event e p = record { event_type = e; packet = p }

-- What a queue of ten holds after some more events were sent to it.
pub fill : List Event → List Event → List Event
fill held more = held ++ take (queue_length - length held) more

pub fill-full : (held more : List Event) → queue_length ≤ length held → fill held more ≡ held
unfolding fill
fill-full held more h = ap (λ n. held ++ take n more) none_left ∙ append-nil held
  where
    none_left : queue_length - length held ≡ 0
    none_left = omega arith

pub fill-nil : (held : List Event) → fill held [] ≡ held
unfolding fill
fill-nil held = ap (λ t. held ++ t) (take-nil (queue_length - length held)) ∙ append-nil held
  where
    take-nil : (n : ℕ) → ◌≡◌ {A = List Event} (take n []) []
    take-nil zero = refl
    take-nil (suc n) = refl

pub fill-cons :
    (held : List Event) (e : Event) (more : List Event)
    → length held < queue_length
    → fill held (e ∷ more) ≡ fill (held ++ (e ∷ [])) more
unfolding fill
fill-cons held e more h =
    ap (λ n. held ++ take n (e ∷ more)) room
    ∙ sym (append_assoc held (e ∷ []) (take rest more))
    ∙ ap (λ n. (held ++ (e ∷ [])) ++ take n more) (omega (arith, length-append {0} held (e ∷ [])))
  where
    rest : ℕ
    rest = queue_length - length held - 1

    room : queue_length - length held ≡ suc rest
    room = omega arith

-- A packet of a connection to one of these ports.
pub data Asks : ℕ → EventType → Type 0 where
  port_15 : {n : ℕ} → n ≡ 15 → Asks n echo_back
  port_16 : {n : ℕ} → n ≡ 16 → Asks n free_heap
  port_17 : {n : ℕ} → n ≡ 17 → Asks n house_keeping
  port_18 : {n : ℕ} → n ≡ 18 → Asks n process_all
  port_19 : {n : ℕ} → n ≡ 19 → Asks n send_signal
  port_20 : {n : ℕ} → n ≡ 20 → Asks n send_fft
  port_21 : {n : ℕ} → n ≡ 21 → Asks n send_summary_info
  port_22 : {n : ℕ} → n ≡ 22 → Asks n send_attenuation

module _ {q : EventQueue} (laws : QueueLaws q) {m : EventPointer} (holds : HoldsEvents m) where
  open laws use {items, items-send, items-send_full}

  pub dispatch-Asks :
      (n : ℕ) (e : EventType) (p : Packet) (s : CspState q m)
      → Asks n e
      → (ticks : ℕ) × (dispatch q m n p s ≡ record s {
        place = m.write_packet p (m.write_type e s.place);
        queue = q.send (event e p) ticks s.queue;
      })
  unfolding dispatch
  dispatch-Asks n e p s (port_15 h) = (100, rw (h, holds.read-write e p s.place))
  dispatch-Asks n e p s (port_16 h) = (100, rw (h, holds.read-write e p s.place))
  dispatch-Asks n e p s (port_17 h) = (10, rw (h, holds.read-write e p s.place))
  dispatch-Asks n e p s (port_18 h) = (100, rw (h, holds.read-write e p s.place))
  dispatch-Asks n e p s (port_19 h) = (100, rw (h, holds.read-write e p s.place))
  dispatch-Asks n e p s (port_20 h) = (100, rw (h, holds.read-write e p s.place))
  dispatch-Asks n e p s (port_21 h) = (100, rw (h, holds.read-write e p s.place))
  dispatch-Asks n e p s (port_22 h) = (100, rw (h, holds.read-write e p s.place))

  -- If `newEvent` leads to memory that holds events, a connection to one of the ports 15 to 22, as long as the main task takes nothing from the queue:
  -- its packets become events of that port's type, in order, as far as the queue of ten has room;
  -- the others are dropped. The service handler is not called.
  pub read_packets-Asks :
      (n : ℕ) (e : EventType) (ps : List Packet) (s : CspState q m)
      → Asks n e
      → (items (read_packets q m n ps s).queue ≡ fill (items s.queue) (map (event e) ps))
        × ((read_packets q m n ps s).serviced ≡ s.serviced)
  unfolding read_packets
  read_packets-Asks n e [] s a = (sym (fill-nil (items s.queue)), refl)
  read_packets-Asks n e (p ∷ ps) s a =
      let (ticks, posted) = dispatch-Asks n e p s a in
      let sent : CspState q m = record s {
        place = m.write_packet p (m.write_type e s.place);
        queue = q.send (event e p) ticks s.queue;
      } in
      let rest = read_packets-Asks n e ps sent a in
      rw (posted, read_packets)
        (elim (dec_lt (length (items s.queue)) queue_length) [
          | yes room ↦ (
            rest.0
                ∙ ap (λ h. fill h (map (event e) ps)) (items-send (event e p) ticks s.queue room)
                ∙ sym (fill-cons (items s.queue) (event e p) (map (event e) ps) room),
            rest.1,
          )
          | no full ↦ (
            rest.0
                ∙ ap (λ h. fill h (map (event e) ps))
                    (items-send_full (event e p) ticks s.queue (omega arith))
                ∙ fill-full (items s.queue) (map (event e) ps) (omega arith)
                ∙ sym (fill-full (items s.queue) (map (event e) (p ∷ ps)) (omega arith)),
            rest.1,
          )
        ])

  -- A connection to any other port gives all its packets to the service handler, in order, and
  -- leaves the queue alone.
  pub read_packets-other :
      (n : ℕ) (ps : List Packet) (s : CspState q m)
      → (n < 15) ⊎ (22 < n)
      → ((read_packets q m n ps s).queue ≡ s.queue)
        × ((read_packets q m n ps s).serviced ≡ s.serviced ++ ps)
  unfolding read_packets
  read_packets-other n [] s h = (refl, sym (append-nil s.serviced))
  read_packets-other n (p ∷ ps) s h =
      let given : CspState q m = record s { serviced = s.serviced ++ (p ∷ []) } in
      let rest = read_packets-other n ps given h in
      rw (serviced_lem n p s h, read_packets) (rest.0, rest.1 ∙ append_assoc s.serviced (p ∷ []) ps)
    where
      serviced_lem :
          (n : ℕ) (p : Packet) (s : CspState q m)
          → (n < 15) ⊎ (22 < n)
          → dispatch q m n p s ≡ record s { serviced = s.serviced ++ (p ∷ []) }
      serviced_lem n p s h = unfold dispatch in ground arith
