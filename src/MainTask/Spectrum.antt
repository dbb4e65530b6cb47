-- ===== src/MainTask/Spectrum.antt =====
-- The exact replies of `sendFFT` of mainTask.c.
use mathlib.Core.List.{append_assoc, append-nil}
use rtos_hm_board.Prelude.{
  ℕ, zero, suc, ◌+◌, ◌*◌, ◌/◌, ◌%◌, ◌^◌, ◌≤◌, ◌<◌, ◌≡◌, refl, ap, ◌∙◌, sym, subst, arith,
  if◌then◌else◌, List, [], ◌∷◌, ◌++◌, Bool, true, false,
}
use rtos_hm_board.Config.{mem_fft_begin, mem_signal_offset, no_points}
use rtos_hm_board.SpiMemory.{Spi, FloatOps, FloatLaws, Complex, spi_mem_read_complex}
use rtos_hm_board.SpiMemory.Bus.{SpiBus, SerialMemory, Cells}
use rtos_hm_board.Fft.Points.{Holds, point_address, read_point}
use rtos_hm_board.Text.{codes}
use rtos_hm_board.CspTask.{Packet}
use rtos_hm_board.MainTask.{spectrum_lines, send_fft, send_text, power_switch_toggle}
use rtos_hm_board.MainTask.Messages.{spectrum_line}
use rtos_hm_board.MainTask.State.{
  Board, Action, Outcome, done, reply, clock_off, clock_on, delay_ms, note, on_spi,
}
use rtos_hm_board.MainTask.Texts.{sprintf-fits, spectrum_line_fits}

-- A line for each of `n` points from index `i` on.
pub point_actions : (f : FloatOps) → Packet → (ℕ → Complex f) → ℕ → ℕ → List Action
point_actions f p points zero i = []
point_actions f p points (suc n) i =
    reply p.src p.sport p.dport (spectrum_line f i (points i)) 10
    ∷ delay_ms 4
    ∷ point_actions f p points n (i + 1)

-- Everything that `sendFFT` does.
abbrev pub spectrum_actions : (f : FloatOps) → Packet → (ℕ → Complex f) → List Action
spectrum_actions f p points =
    clock_off
    ∷ delay_ms 5
    ∷ reply p.src p.sport p.dport (codes "Sampled signal\n") 15
    ∷ (point_actions f p points (no_points / 2) 0 ++ (clock_on ∷ []))

module _ {bus : SpiBus} (chip : SerialMemory bus) (room : mem_signal_offset + 2 ≤ chip.size)
    {f : FloatOps} (laws : FloatLaws f) {Pin : Type 0} (toggle : Pin → Pin)
    (accepted : List Action → Bool) (p : Packet) (m : Cells) (points : ℕ → Complex f) where
  -- The outcome of a handler that sends some actions and leaves the points in the memory.
  Sends : List Action → Board bus Pin → Outcome (Board bus Pin) → Type 0
  Sends actions b o =
      (b' : Board bus Pin) × (o ≡ done b')
      × (b'.log ≡ b.log ++ actions)
      × Holds chip laws m points b'.sampler.spi

  -- The pin of the power switch is all that a line sent changes on the board.
  toggled_same :
      (c : Bool) (b : Board bus Pin)
      → let b' = if c then power_switch_toggle f toggle accepted b else b in
        (b'.log ≡ b.log) × (b'.sampler.spi ≡ b.sampler.spi)
  toggled_same true b = (refl, refl)
  toggled_same false b = (refl, refl)

  read_lem :
      (i : ℕ) (s : Spi bus)
      → i < no_points
      → Holds chip laws m points s
      → let read = spi_mem_read_complex bus f ((i * 8 + mem_fft_begin) % 2 ^ 16) s in
        (read.0 ≡ points i) × Holds chip laws m points read.1
  read_lem i s lt h =
      let place : (i * 8 + mem_fft_begin) % 2 ^ 16 ≡ point_address i = omega arith in
      subst
        (λ a.
          ((spi_mem_read_complex bus f a s).0 ≡ points i)
          × Holds chip laws m points (spi_mem_read_complex bus f a s).1)
        (sym place) (read_point chip laws h room i lt)

  spectrum_lines-Sends :
      (n i : ℕ) (b : Board bus Pin)
      → i + n ≤ no_points
      → Holds chip laws m points b.sampler.spi
      → Sends (point_actions f p points n i) b (spectrum_lines f toggle accepted n i p b)
  unfolding spectrum_lines point_actions Sends
  spectrum_lines-Sends zero i b le h = (b, refl, sym (append-nil b.log), h)
  spectrum_lines-Sends (suc n) i b le h =
      let (point, spi) =
        spi_mem_read_complex bus f ((i * 8 + mem_fft_begin) % 2 ^ 16) b.sampler.spi in
      let (point_lem, kept) = read_lem i b.sampler.spi (omega arith) h in
      let text = spectrum_line f i point in
      let (sent, success) = send_text f toggle accepted p text 10 (on_spi spi b) in
      let b1 : Board bus Pin =
        if success then power_switch_toggle f toggle accepted sent else sent in
      let (same_log, same_spi) = toggled_same success sent in
      let b2 = note (delay_ms 4) b1 in
      let line = λ (c : Complex f). reply p.src p.sport p.dport (spectrum_line f i c) 10 in
      let rest_actions = point_actions f p points n (i + 1) in
      let (b3, ends, log_lem, held) =
        spectrum_lines-Sends n (i + 1) b2 (omega arith)
          (subst (Holds chip laws m points) (sym same_spi) kept) in
      (
        b3,
        rw (sprintf-fits 30 text (spectrum_line_fits f i point)) ends,
        log_lem
            ∙ ap (λ l. (l ++ (delay_ms 4 ∷ [])) ++ rest_actions) same_log
            ∙ append_assoc (b.log ++ (line point ∷ [])) (delay_ms 4 ∷ []) rest_actions
            ∙ append_assoc b.log (line point ∷ []) (delay_ms 4 ∷ rest_actions)
            ∙ ap (λ (c : Complex f). b.log ++ (line c ∷ delay_ms 4 ∷ rest_actions)) point_lem,
        held,
      )

  -- With the memory at rest, large enough and holding an array of points: `sendFFT` comes to its
  -- end, and exactly this has been done: the RTOS timer was stopped, a title was sent, then a line
  -- for each of the first 256 points in order, with its frequency and its level, and the timer was
  -- started again, with the delays between. The memory holds the same points, and no cell outside
  -- of them has changed.
  pub send_fft-points :
      (b : Board bus Pin)
      → Holds chip laws m points b.sampler.spi
      → (b' : Board bus Pin) × (send_fft f toggle accepted p b ≡ done b')
        × (b'.log ≡ b.log ++ spectrum_actions f p points)
        × Holds chip laws m points b'.sampler.spi
  unfolding send_fft Sends
  send_fft-points b h =
      let text = codes "Sampled signal\n" in
      let b1 = power_switch_toggle f toggle accepted (note (delay_ms 5) (note clock_off b)) in
      let b2 = (send_text f toggle accepted p text 15 b1).0 in
      let (b3, ends, log_lem, held) = spectrum_lines-Sends (no_points / 2) 0 b2 (omega arith) h in
      (
        note clock_on b3,
        rw (sprintf-fits 30 text (omega arith), ends) refl,
        ap (λ l. l ++ (clock_on ∷ [])) log_lem ∙ simp append_assoc refl,
        held,
      )
