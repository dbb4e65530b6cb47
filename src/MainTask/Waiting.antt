-- ===== src/MainTask/Waiting.antt =====
-- The delay and the loop in which `processAll` of mainTask.c waits for the sampling interrupt.
use native.Mathlib.Decide.{dec_lt}
use rtos_hm_board.Prelude.{
  ℕ, zero, suc, ◌+◌, ◌-◌, ◌≤◌, ◌<◌, ◌≡◌, ◌⊎◌, inl, inr, refl, ap, ◌∙◌, sym, subst, arith, List, [],
  ◌∷◌, ◌++◌, length, length-append, take, length-take, Bool, true, false,
}
use rtos_hm_board.Config.{mem_signal_length, mem_signal_offset}
use rtos_hm_board.SpiMemory.{FloatOps}
use rtos_hm_board.SpiMemory.Bus.{SpiBus, SerialMemory}
use rtos_hm_board.SpiMemory.Laws.{IsReady}
use rtos_hm_board.Sampling.{Readings, Sampler, sample, samples}
use rtos_hm_board.Sampling.Run.{IsComplete, IsSampling, samples-IsComplete, sample-stopped, step}
use rtos_hm_board.Fft.Stages.{fft_calculate-stages}
use rtos_hm_board.CspTask.{Packet}
use rtos_hm_board.MainTask.{wait_sampling, process_all}
use rtos_hm_board.MainTask.State.{Wait, Board, Action, done, overflow, waiting, sprintf}

module _ {bus : SpiBus} (chip : SerialMemory bus) {Pin : Type 0} (toggle : Pin → Pin) where
  samples-stopped :
      (rs : List Readings) (s : Sampler bus Pin) → s.sampling ≡ false → samples bus toggle rs s ≡ s
  unfolding samples
  samples-stopped [] s stopped = refl
  samples-stopped (r ∷ rs) s stopped =
      ap (samples bus toggle rs) (sample-stopped bus toggle r s stopped)
      ∙ samples-stopped rs s stopped

  samples-append :
      (rs qs : List Readings) (s : Sampler bus Pin)
      → samples bus toggle (rs ++ qs) s ≡ samples bus toggle qs (samples bus toggle rs s)
  unfolding samples
  samples-append [] qs s = refl
  samples-append (r ∷ rs) qs s = samples-append rs qs (sample bus toggle r s)

  -- Too few interrupts leave the measurement in progress.
  samples-IsSampling :
      (rs : List Readings) (s : Sampler bus Pin)
      → IsSampling chip toggle s
      → s.count + length rs < mem_signal_length
      → IsSampling chip toggle (samples bus toggle rs s)
        × ((samples bus toggle rs s).count ≡ s.count + length rs)
  unfolding samples
  samples-IsSampling [] s v few = (v, omega arith)
  samples-IsSampling (r ∷ rs) s v few =
      let next = step chip toggle r s v (omega arith) in
      let rest = samples-IsSampling rs (sample bus toggle r s) next.0 (omega (arith, next.1)) in
      (rest.0, omega (arith, next.1, rest.1))

  -- Interrupts behind the last one that is needed change nothing.
  samples-take :
      (n : ℕ) (r : Readings) (rs : List Readings) (s : Sampler bus Pin)
      → IsSampling chip toggle s
      → s.count + suc n ≡ mem_signal_length
      → n ≤ length rs
      → samples bus toggle (r ∷ rs) s ≡ samples bus toggle (r ∷ take n rs) s
  unfolding samples
  samples-take zero r rs s v missing enough =
      samples-stopped rs (sample bus toggle r s)
        (samples-IsComplete chip toggle r [] s v missing).stopped
  samples-take (suc n) r [] s v missing enough = absurd (omega arith)
  samples-take (suc n) r (q ∷ rs) s v missing enough =
      let next = step chip toggle r s v (omega arith) in
      samples-take n q rs (sample bus toggle r s) next.0 (omega (arith, next.1)) (omega arith)

  -- Enough interrupts complete the measurement.
  samples-enough :
      (rs : List Readings) (s : Sampler bus Pin)
      → IsSampling chip toggle s
      → mem_signal_length ≤ s.count + length rs
      → IsComplete chip toggle s (take (mem_signal_length - s.count) rs) (samples bus toggle rs s)
  samples-enough [] s v enough = absurd (omega (arith, v.count_in))
  samples-enough (r ∷ rs) s v enough =
      let n = mem_signal_length - s.count - 1 in
      let missing : mem_signal_length - s.count ≡ suc n = omega (arith, v.count_in) in
      subst (λ k. IsComplete chip toggle s (take k (r ∷ rs)) (samples bus toggle (r ∷ rs) s))
        (sym missing)
        (subst (IsComplete chip toggle s (r ∷ take n rs))
          (sym (samples-take n r rs s v (omega (arith, v.count_in)) (omega (arith, v.count_in))))
          (samples-IsComplete chip toggle r (take n rs) s v
            (omega (arith, length-take n rs, v.count_in))))

  module _ (f : FloatOps) (accepted : List Action → Bool) where
    wait_stopped :
        (rereads : Bool) (rs : List Readings) (s : Sampler bus Pin)
        → s.sampling ≡ false
        → wait_sampling f toggle accepted rereads rs s ≡ done s
    unfolding wait_sampling
    wait_stopped rereads [] s stopped = rw stopped refl
    wait_stopped rereads (r ∷ rs) s stopped = rw stopped refl

    -- A loop that reads the flag once never ends when it is set.
    wait_once :
        (rs : List Readings) (s : Sampler bus Pin)
        → s.sampling ≡ true
        → wait_sampling f toggle accepted false rs s ≡ waiting
    unfolding wait_sampling
    wait_once [] s running = rw running refl
    wait_once (r ∷ rs) s running = rw running refl

    wait_running :
        (r : Readings) (rs : List Readings) (s : Sampler bus Pin)
        → s.sampling ≡ true
        → wait_sampling f toggle accepted true (r ∷ rs) s
          ≡ wait_sampling f toggle accepted true rs (sample bus toggle r s)
    unfolding wait_sampling
    wait_running r rs s running = rw running refl

    -- A loop that reads the flag each time ends with enough interrupts.
    waits :
        (rs : List Readings) (s : Sampler bus Pin)
        → IsSampling chip toggle s
        → mem_signal_length ≤ s.count + length rs
        → wait_sampling f toggle accepted true rs s ≡ done (samples bus toggle rs s)
    unfolding samples
    waits [] s v enough = absurd (omega (arith, v.count_in))
    waits (r ∷ rs) s v enough = elim (dec_lt (s.count + 1) mem_signal_length) [
      | yes more ↦
          let next = step chip toggle r s v more in
          wait_running r rs s v.running
          ∙ waits rs (sample bus toggle r s) next.0 (omega (arith, next.1))
      | no full ↦
          let last = samples-IsComplete chip toggle r [] s v (omega (arith, v.count_in)) in
          wait_running r rs s v.running
          ∙ wait_stopped true rs (sample bus toggle r s) last.stopped
          ∙ ap done (sym (samples-stopped rs (sample bus toggle r s) last.stopped))
    ]

    -- From any point of a measurement in progress, with the memory at rest and large enough for the
    -- offset word. If the interrupts during the delay take all the samples that are missing, or if
    -- these together with the interrupts during the loop do and the compiler has the loop read
    -- `sampling` again in each round: the loop ends, and the measurement is complete with the first
    -- of them.
    pub wait_sampling-ends :
        (rereads : Bool) (during after : List Readings) (s : Sampler bus Pin)
        → IsSampling chip toggle s
        → (mem_signal_length ≤ s.count + length during)
          ⊎ ((rereads ≡ true) × (mem_signal_length ≤ s.count + length during + length after))
        → (s' : Sampler bus Pin) × (wait_sampling f toggle accepted rereads after
              (samples bus toggle during s)
            ≡ done s')
          × IsComplete chip toggle s (take (mem_signal_length - s.count) (during ++ after)) s'
    wait_sampling-ends rereads during after s v enough = (
      samples bus toggle (during ++ after) s,
      ends ∙ ap done (sym (samples-append during after s)),
      samples-enough (during ++ after) s v in_all,
    )
      where
        delayed : Sampler bus Pin
        delayed = samples bus toggle during s

        in_all : mem_signal_length ≤ s.count + length (during ++ after)
        in_all = omega (arith, length-append during after, enough)

        at_once :
            mem_signal_length ≤ s.count + length during
            → wait_sampling f toggle accepted rereads after delayed
              ≡ done (samples bus toggle after delayed)
        at_once all =
            let complete = samples-enough during s v all in
            wait_stopped rereads after delayed complete.stopped
            ∙ ap done (sym (samples-stopped after delayed complete.stopped))

        ends :
            wait_sampling f toggle accepted rereads after delayed
            ≡ done (samples bus toggle after delayed)
        ends = elim (dec_lt (s.count + length during) mem_signal_length) [
          | yes few ↦
              let kept = samples-IsSampling during s v few in
              let each : rereads ≡ true = elim enough [
                | inl all ↦ absurd (omega arith)
                | inr h ↦ h.0
              ] in
              subst
                (λ c.
                  wait_sampling f toggle accepted c after delayed
                  ≡ done (samples bus toggle after delayed))
                (sym each)
                (waits after delayed kept.0
                  (omega (arith, kept.1, in_all, length-append during after)))
          | no all ↦ at_once (omega arith)
        ]

    -- With the memory at rest and large enough for the offset word, if at least 2048 interrupts come
    -- during its delay: `processAll` leaves its loop, whether or not the loop reads `sampling` again,
    -- and comes, behind the transform, to print a text into an array that is too short for it.
    pub process_all_overflows :
        (wait : Wait) (p : Packet) (b : Board bus Pin)
        → IsReady chip b.sampler.spi
        → mem_signal_offset + 2 ≤ chip.size
        → mem_signal_length ≤ length wait.during
        → process_all f toggle accepted wait p b ≡ overflow
    unfolding process_all sprintf
    process_all_overflows wait p b ready room enough =
        let started : Sampler bus Pin = record b.sampler { count = 0; sampling = true } in
        let v : IsSampling chip toggle started = record {
          running = refl;
          count_in = omega arith;
          ready = ready;
          room = room;
        } in
        let (s, ends, complete) =
          wait_sampling-ends wait.rereads wait.during wait.after started v (inl (omega arith)) in
        rw (ends, fft_calculate-stages bus f) refl

    -- With the memory at rest and large enough for the offset word, if fewer than 2048 interrupts come
    -- during its delay and the compiler has the loop read `sampling`, which is not volatile, only
    -- once: `processAll` stays in the loop, whatever interrupts follow.
    pub process_all_stays :
        (wait : Wait) (p : Packet) (b : Board bus Pin)
        → IsReady chip b.sampler.spi
        → mem_signal_offset + 2 ≤ chip.size
        → length wait.during < mem_signal_length
        → wait.rereads ≡ false
        → process_all f toggle accepted wait p b ≡ waiting
    unfolding process_all
    process_all_stays wait p b ready room few once =
        let started : Sampler bus Pin = record b.sampler { count = 0; sampling = true } in
        let kept =
          samples-IsSampling wait.during started
            (record { running = refl; count_in = omega arith; ready = ready; room = room })
            (omega arith) in
        rw (once, wait_once wait.after (samples bus toggle wait.during started) kept.0.running) refl
