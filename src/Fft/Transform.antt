-- ===== src/Fft/Transform.antt =====
-- The loops of `FFT_calculate` of fft_memory.c on an array of points, and one stage of them as a
-- function of the index.
use native.Mathlib.Nat.{
  mod-eq_of_lt, add-mod_right, add-mul-mod_self_right, mod-add-div', mod-lt, div-lt_iff_lt-mul,
}
use rtos_hm_board.Prelude.{
  ℕ, zero, suc, ◌+◌, ◌-◌, ◌*◌, ◌%◌, ◌≤◌, ◌<◌, ltb, if◌then◌else◌, ◌≡◌, ◌≢◌, refl, ap, ap₂, ◌⊎◌, inl,
  inr, ◌∙◌, sym, subst, arith, dec_lt, lt→ltb, false, ℕ_discrete, ◌/◌,
}
use rtos_hm_board.SpiMemory.{FloatOps, Complex}
use rtos_hm_board.SpiMemory.Bus.{SpiBus}
use rtos_hm_board.Fft.{butterfly, sincos}
use rtos_hm_board.Fft.Points.{put_point}

module _ (bus : SpiBus) (f : FloatOps) where
  -- The two points of a pair after one round, for a place in the table of angles.
  abbrev pub pair_of : ℕ → Complex f → Complex f → Complex f × Complex f
  pair_of fnk x y = butterfly bus f (sincos bus f fnk) (sincos bus f (fnk + 1)) x y

  -- The points at `a` and `a + n` after one round.
  abbrev pub pair_at : ℕ → ℕ → ℕ → (ℕ → Complex f) → ℕ → Complex f
  pair_at n fnk a p =
      let (x, y) = pair_of fnk (p a) (p (a + n)) in put_point (put_point p a x) (a + n) y

  unfoldable pub group_run : ℕ → ℕ → ℕ → ℕ → (ℕ → Complex f) → ℕ → Complex f
  group_run zero n fnk a p = p
  group_run (suc rounds) n fnk a p = group_run rounds n fnk (a + 2 * n) (pair_at n fnk a p)

  unfoldable pub distance_run : ℕ → ℕ → ℕ → ℕ → ℕ → (ℕ → Complex f) → ℕ → Complex f
  distance_run zero n angf fnk a p = p
  distance_run (suc rounds) n angf fnk a p =
      distance_run rounds n angf (fnk + angf * 2) (a + 1) (group_run angf n fnk a p)

  -- A whole stage as a function of the index: the lower and the upper point of a pair are `n`
  -- apart, and the angle depends on the place in the group.
  unfoldable pub stage_of : ℕ → ℕ → (ℕ → Complex f) → ℕ → Complex f
  stage_of n angf p j =
      let place = j % (2 * n) in
      if ltb place n
      then (pair_of (place * (angf * 2)) (p j) (p (j + n))).0
      else (pair_of ((place - n) * (angf * 2)) (p (j - n)) (p j)).1

  -- Places in front of a run of groups, and places with another remainder.
  group_run_before :
      (rounds n fnk a : ℕ) (p : ℕ → Complex f) (j : ℕ) → j < a → group_run rounds n fnk a p j ≡ p j
  unfolding group_run
  group_run_before zero n fnk a p j lt = refl
  group_run_before (suc rounds) n fnk a p j lt =
      group_run_before rounds n fnk (a + 2 * n) (pair_at n fnk a p) j (omega arith) ∙ ground arith

  -- Places with other remainders than the two of a run stay.
  group_run_other :
      (rounds n fnk a : ℕ) (p : ℕ → Complex f) (j : ℕ)
      → j % (2 * n) ≢ a % (2 * n)
      → j % (2 * n) ≢ (a + n) % (2 * n)
      → group_run rounds n fnk a p j ≡ p j
  unfolding group_run
  group_run_other zero n fnk a p j low high = refl
  group_run_other (suc rounds) n fnk a p j low high =
      let far : j ≢ a + n = λ e. high (ap (λ t. t % (2 * n)) e) in
      let near : j ≢ a = λ e. low (ap (λ t. t % (2 * n)) e) in
      let swap : a + 2 * n + n ≡ a + n + 2 * n = omega arith in
      group_run_other rounds n fnk (a + 2 * n) (pair_at n fnk a p) j
        (λ e. low (e ∙ add-mod_right a (2 * n)))
        (λ e. high (e ∙ ap (λ t. t % (2 * n)) swap ∙ add-mod_right (a + n) (2 * n)))
      ∙ ground arith

  pair_at_other :
      (n fnk a : ℕ) (p : ℕ → Complex f) (j : ℕ) → j ≢ a → j ≢ a + n → pair_at n fnk a p j ≡ p j
  pair_at_other n fnk a p j low high = ground arith

  pair_at_self :
      (n fnk a : ℕ) (p : ℕ → Complex f)
      → 0 < n
      → (pair_at n fnk a p a ≡ (pair_of fnk (p a) (p (a + n))).0)
        × (pair_at n fnk a p (a + n) ≡ (pair_of fnk (p a) (p (a + n))).1)
  pair_at_self n fnk a p pos = (ground arith, ground arith)

  -- The pair of group `g` after the run.
  group_run_pair :
      (rounds n fnk a : ℕ) (p : ℕ → Complex f) (g j : ℕ)
      → 0 < n
      → g < rounds
      → j ≡ a + g * (2 * n)
      → (group_run rounds n fnk a p j ≡ (pair_of fnk (p j) (p (j + n))).0)
        × (group_run rounds n fnk a p (j + n) ≡ (pair_of fnk (p j) (p (j + n))).1)
  unfolding group_run
  group_run_pair zero n fnk a p g j pos lt e = absurd (omega arith)
  group_run_pair (suc rounds) n fnk a p zero j pos lt e =
      let e' : j ≡ a = omega arith in
      let before = group_run_before rounds n fnk (a + 2 * n) (pair_at n fnk a p) in
      rw e' (
        before a (omega arith) ∙ (pair_at_self n fnk a p pos).0,
        before (a + n) (omega arith) ∙ (pair_at_self n fnk a p pos).1,
      )
  group_run_pair (suc rounds) n fnk a p (suc g) j pos lt e =
      let (low, high) =
        group_run_pair rounds n fnk (a + 2 * n) (pair_at n fnk a p) g j pos (omega arith)
          (omega arith) in
      let same = pair_at_other n fnk a p j (omega arith) (omega arith) in
      let same_n = pair_at_other n fnk a p (j + n) (omega arith) (omega arith) in
      (
        low ∙ ap₂ (λ x y. (pair_of fnk x y).0) same same_n,
        high ∙ ap₂ (λ x y. (pair_of fnk x y).1) same same_n,
      )

  place_of : (n d g : ℕ) → d < 2 * n → (d + g * (2 * n)) % (2 * n) ≡ d
  place_of n d g lt = add-mul-mod_self_right d g (2 * n) ∙ mod-eq_of_lt lt

  distance_run_other :
      (rounds n angf fnk a : ℕ) (p : ℕ → Complex f) (j : ℕ)
      → a + rounds ≤ n
      → (j % (2 * n) < a)
        ⊎ (a + rounds ≤ j % (2 * n)) × (j % (2 * n) < n + a)
        ⊎ (n + a + rounds ≤ j % (2 * n))
      → distance_run rounds n angf fnk a p j ≡ p j
  unfolding distance_run
  distance_run_other zero n angf fnk a p j le out = refl
  distance_run_other (suc rounds) n angf fnk a p j le out =
      let low : a % (2 * n) ≡ a = mod-eq_of_lt (omega arith) in
      let high : (a + n) % (2 * n) ≡ a + n = mod-eq_of_lt (omega arith) in
      distance_run_other rounds n angf (fnk + angf * 2) (a + 1) (group_run angf n fnk a p) j
        (omega arith) (ground arith)
      ∙ group_run_other angf n fnk a p j (λ e. omega arith) (λ e. omega arith)

  distance_run_pair :
      (rounds n angf fnk a : ℕ) (p : ℕ → Complex f) (d g j : ℕ)
      → a ≤ d
      → d < a + rounds
      → a + rounds ≤ n
      → g < angf
      → j ≡ d + g * (2 * n)
      → fnk ≡ a * (angf * 2)
      → (distance_run rounds n angf fnk a p j ≡ (pair_of (d * (angf * 2)) (p j) (p (j + n))).0)
        × (distance_run rounds n angf fnk a p (j + n)
            ≡ (pair_of (d * (angf * 2)) (p j) (p (j + n))).1)
  unfolding distance_run
  distance_run_pair zero n angf fnk a p d g j ge lt le g_in e here = absurd (omega arith)
  distance_run_pair (suc rounds) n angf fnk a p d g j ge lt le g_in e here =
      let shifted : j + n ≡ (d + n) + g * (2 * n) = omega arith in
      let low : j % (2 * n) ≡ d = ap (λ t. t % (2 * n)) e ∙ place_of n d g (omega arith) in
      let high : (j + n) % (2 * n) ≡ d + n =
        ap (λ t. t % (2 * n)) shifted ∙ place_of n (d + n) g (omega arith) in
      let p' = group_run angf n fnk a p in
      let step_fnk : fnk + angf * 2 ≡ (a + 1) * (angf * 2) = omega arith in
      elim (ℕ_discrete d a) [
        | yes now ↦
            let rest = distance_run_other rounds n angf (fnk + angf * 2) (a + 1) p' in
            let (at_low, at_high) =
              group_run_pair angf n fnk a p g j (omega arith) g_in (omega arith) in
            let place : fnk ≡ d * (angf * 2) = here ∙ ap (λ t. t * (angf * 2)) (sym now) in
            (
              rest j (omega arith) (inl (omega arith))
                  ∙ at_low
                  ∙ ap (λ t. (pair_of t (p j) (p (j + n))).0) place,
              rest (j + n) (omega arith) (inr (inl (omega arith, omega arith)))
                  ∙ at_high
                  ∙ ap (λ t. (pair_of t (p j) (p (j + n))).1) place,
            )
        | no later ↦
            let (at_low, at_high) =
              distance_run_pair rounds n angf (fnk + angf * 2) (a + 1) p' d g j (omega arith)
                (omega arith) (omega arith) g_in e step_fnk in
            let low_a : a % (2 * n) ≡ a = mod-eq_of_lt (omega arith) in
            let high_a : (a + n) % (2 * n) ≡ a + n = mod-eq_of_lt (omega arith) in
            let same = group_run_other angf n fnk a p j (λ t. omega arith) (λ t. omega arith) in
            let same_n =
              group_run_other angf n fnk a p (j + n) (λ t. omega arith) (λ t. omega arith) in
            (
              at_low ∙ ap₂ (λ x y. (pair_of (d * (angf * 2)) x y).0) same same_n,
              at_high ∙ ap₂ (λ x y. (pair_of (d * (angf * 2)) x y).1) same same_n,
            )
      ]

  -- All distances of a stage with all their groups.
  pub distance_run-stage_of :
      (n angf size : ℕ) (p : ℕ → Complex f) (j : ℕ)
      → 0 < n
      → angf * (2 * n) ≡ size
      → j < size
      → distance_run n n angf 0 0 p j ≡ stage_of n angf p j
  unfolding stage_of
  distance_run-stage_of n angf size p j pos whole lt =
      let place = j % (2 * n) in
      let g = j / (2 * n) in
      let split : place + g * (2 * n) ≡ j = mod-add-div' j (2 * n) in
      let small : place < 2 * n = mod-lt j (omega arith) in
      let g_in : g < angf =
        (div-lt_iff_lt-mul {k = 2 * n} {x = j} {y = angf} (omega arith)).1 (omega arith) in
      elim (dec_lt place n) [
        | yes low ↦
            rw (lt→ltb place n low)
              (distance_run_pair n n angf 0 0 p place g j (omega arith) (omega arith) (omega arith)
                g_in (sym split) (omega arith)).0
        | no high ↦
            let not_low : ltb place n ≡ false = ground arith in
            let joined : j - n + n ≡ j = omega arith in
            let at =
              (distance_run_pair n n angf 0 0 p (place - n) g (j - n) (omega arith) (omega arith)
                (omega arith) g_in (omega arith) (omega arith)).1 in
            rw not_low (
              subst
                (λ k.
                  distance_run n n angf 0 0 p k
                  ≡ (pair_of ((place - n) * (angf * 2)) (p (j - n)) (p k)).1)
                joined at)
      ]

  -- The transform of an array: nine stages, with distances that double and angles that halve.
  abbrev pub transform : (ℕ → Complex f) → ℕ → Complex f
  transform p = stage_of 256 1 (
      stage_of 128 2 (
        stage_of 64 4 (
          stage_of 32 8
            (stage_of 16 16 (stage_of 8 32 (stage_of 4 64 (stage_of 2 128 (stage_of 1 256 p))))))))
