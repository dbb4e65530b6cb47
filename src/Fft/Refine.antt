-- ===== src/Fft/Refine.antt =====
-- `FFT_calculate` of fft_memory.c on the external memory against the transform of an array.
use rtos_hm_board.Prelude.{
  ℕ, zero, suc, ◌+◌, ◌-◌, ◌*◌, ◌%◌, ◌^◌, ◌≤◌, ◌<◌, ◌≡◌, ap, ◌∙◌, sym, subst, arith, some,
}
use rtos_hm_board.Config.{mem_fft_begin, mem_signal_offset, no_points}
use rtos_hm_board.SpiMemory.{
  Spi, FloatOps, FloatLaws, Complex, spi_mem_read_complex, spi_mem_write_complex,
}
use rtos_hm_board.SpiMemory.Bus.{SpiBus, SerialMemory, Cells}
use rtos_hm_board.Fft.{Cursor, groups, distances, back, sincos, fft_calculate}
use rtos_hm_board.Fft.Points.{Holds, point_address, read_point, write_point}
use rtos_hm_board.Fft.Stages.{stage, fft_calculate-stages}
use rtos_hm_board.Fft.Transform.{
  pair_at, pair_of, group_run, distance_run, stage_of, distance_run-stage_of, transform,
}

module _ {bus : SpiBus} (chip : SerialMemory bus) {f : FloatOps} (laws : FloatLaws f)
    (room : mem_signal_offset + 2 ≤ chip.size) where
  -- The pointers at point `a` and at the point `n` behind it.
  abbrev cursor : ℕ → ℕ → Spi bus → Cursor bus f
  cursor n a s = record { pointer_a = point_address a; pointer_b = point_address (a + n); spi = s }

  -- Where a run of a loop ends, and with which points in the memory.
  record Ends (m : Cells) (p : ℕ → Complex f) (n a : ℕ) (c : Cursor bus f) : Type 0 where
    at : Spi bus
    reached : c ≡ cursor n a at
    holds : Holds chip laws m p at

  groups_lem :
      {m : Cells} (rounds n fnk a : ℕ) (p : ℕ → Complex f) (s : Spi bus)
      → n ≤ 256
      → a + rounds * (2 * n) < no_points + n
      → Holds chip laws m p s
      → Ends m
          (group_run bus f rounds n fnk a p)
          n
          (a + rounds * (2 * n))
          (groups bus f rounds n (sincos bus f fnk) (sincos bus f (fnk + 1)) (cursor n a s))
  unfolding groups group_run
  groups_lem zero n fnk a p s n_in inside h = record {
    at = s;
    reached = ap (λ k. cursor n k s) (omega arith);
    holds = h;
  }
  groups_lem {m} (suc rounds) n fnk a p s n_in inside h =
      let (x_lem, read_x) = read_point chip laws h room a (omega arith) in
      let (y_lem, read_y) = read_point chip laws read_x room (a + n) (omega arith) in
      let (x, y) = pair_of bus f fnk (p a) (p (a + n)) in
      let wrote_x = write_point chip laws read_y room a (omega arith) x in
      let wrote = write_point chip laws wrote_x room (a + n) (omega arith) y in
      let s' = spi_mem_write_complex bus f (point_address (a + n)) y (
        spi_mem_write_complex bus f (point_address a) x
          (spi_mem_read_complex bus f (point_address (a + n))
            (spi_mem_read_complex bus f (point_address a) s).1).1) in
      let next_a : (point_address a + 16 * n % 2 ^ 16) % 2 ^ 32 ≡ point_address (a + 2 * n) =
        omega arith in
      let next_b : (point_address (a + n) + 16 * n % 2 ^ 16) % 2 ^ 32
          ≡ point_address (a + 2 * n + n) =
        omega arith in
      let position : a + 2 * n + rounds * (2 * n) ≡ a + suc rounds * (2 * n) = omega arith in
      let rest =
        groups_lem rounds n fnk (a + 2 * n) (pair_at bus f n fnk a p) s' n_in (omega arith) wrote in
      rw (x_lem, y_lem, next_a, next_b, sym position) rest

  distances_lem :
      {m : Cells} (rounds n angf fnk a : ℕ) (p : ℕ → Complex f) (s : Spi bus)
      → n ≤ 256
      → 0 < angf
      → angf * (2 * n) ≡ no_points
      → a + rounds ≤ n
      → fnk + rounds * (angf * 2) ≤ no_points
      → Holds chip laws m p s
      → Ends m
          (distance_run bus f rounds n angf fnk a p)
          n
          (a + rounds)
          (distances bus f rounds n angf fnk (cursor n a s))
  unfolding distances distance_run
  distances_lem zero n angf fnk a p s n_in pos whole inside angle h = record {
    at = s;
    reached = ap (λ k. cursor n k s) (omega arith);
    holds = h;
  }
  distances_lem {m} (suc rounds) n angf fnk a p s n_in pos whole inside angle h =
      let run = groups_lem angf n fnk a p s n_in (omega arith) h in
      let next_fnk : (fnk + 2 + (angf - 1) * 2) % 2 ^ 16 ≡ fnk + angf * 2 = omega arith in
      let next_a : back bus f (point_address (a + angf * (2 * n))) ≡ point_address (a + 1) =
        omega arith in
      let next_b : back bus f (point_address (a + angf * (2 * n) + n)) ≡ point_address (a + 1 + n) =
        omega arith in
      let rest =
        distances_lem rounds n angf (fnk + angf * 2) (a + 1) (group_run bus f angf n fnk a p) run.at
          n_in pos whole (omega arith) (omega arith) run.holds in
      let position : a + 1 + rounds ≡ a + suc rounds = omega arith in
      rw (run.reached, next_fnk, next_a, next_b, sym position) rest

  stage_lem :
      {m : Cells} (n angf : ℕ) (p : ℕ → Complex f) (s : Spi bus)
      → (n ≤ 256) × (0 < n) × (0 < angf) × (angf * (2 * n) ≡ no_points)
      → Holds chip laws m p s
      → Holds chip laws m (stage_of bus f n angf p) (stage bus f n angf s)
  stage_lem {m} n angf p s (n_in, n_pos, pos, whole) h =
      let run = distances_lem n n angf 0 0 p s n_in pos whole (omega arith) (omega arith) h in
      let start : (mem_fft_begin + n * 8) % 2 ^ 16 ≡ point_address (0 + n) = omega arith in
      let begin : Spi bus → ℕ → Cursor bus f =
        λ s pointer. record { pointer_a = mem_fft_begin; pointer_b = pointer; spi = s } in
      let ends : stage bus f n angf s ≡ run.at =
        ap (λ t. (distances bus f n n angf 0 (begin s t)).spi) start
        ∙ ap (λ c. c.spi) run.reached in
      subst (Holds chip laws m (stage_of bus f n angf p)) (sym ends) (record {
        ready = run.holds.ready;
        points = λ j lt.
            run.holds.points j lt ∙ distance_run-stage_of bus f n angf no_points p j n_pos whole lt;
        others = run.holds.others;
      })

  -- With the memory at rest, large enough and holding the points `p`: `FFT_calculate` ends, and then
  -- the memory is at rest and holds the transform of `p`, in which each of the nine stages is a
  -- function of the index. No cell outside of the points has changed.
  pub fft_calculate-transform :
      {m : Cells} (p : ℕ → Complex f) (s : Spi bus)
      → Holds chip laws m p s
      → (s' : Spi bus) × (fft_calculate bus f s ≡ some s')
        × Holds chip laws m (transform bus f p) s'
  fft_calculate-transform {m} p s h = (
    _,
    fft_calculate-stages bus f s,
    stage_lem 256 1 _ _ (omega arith) (
        stage_lem 128 2 _ _ (omega arith) (
          stage_lem 64 4 _ _ (omega arith) (
            stage_lem 32 8 _ _ (omega arith) (
              stage_lem 16 16 _ _ (omega arith) (
                stage_lem 8 32 _ _ (omega arith) (
                  stage_lem 4 64 _ _ (omega arith)
                    (stage_lem 2 128 _ _ (omega arith) (stage_lem 1 256 p s (omega arith) h)))))))),
  )
