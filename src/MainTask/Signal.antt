-- ===== src/MainTask/Signal.antt =====
-- The exact replies of `sendSignal` of mainTask.c.
use mathlib.Core.List.{append_assoc, append-nil}
use rtos_hm_board.Prelude.{
  ℕ, zero, suc, ◌+◌, ◌*◌, ◌%◌, ◌^◌, ◌≤◌, ◌<◌, ◌≡◌, refl, ap, ap₂, ◌∙◌, sym, arith, List, [], ◌∷◌,
  ◌++◌, length, get_or, Bool,
}
use rtos_hm_board.Config.{mem_signal_begin, mem_signal_length, mem_signal_offset}
use rtos_hm_board.SpiMemory.{FloatOps, spi_mem_read_word}
use rtos_hm_board.SpiMemory.Bus.{SpiBus, SerialMemory, Cells}
use rtos_hm_board.SpiMemory.Cells.{word_at}
use rtos_hm_board.SpiMemory.Laws.{IsReady, contents}
use rtos_hm_board.SpiMemory.Reads.{spi_mem_read_word_lem}
use rtos_hm_board.Sampling.{Readings, Sampler, adca_read_ch0}
use rtos_hm_board.Sampling.Run.{IsComplete}
use rtos_hm_board.Sampling.Signal.{silence, sample_word_lem}
use rtos_hm_board.Text.{codes}
use rtos_hm_board.CspTask.{Packet}
use rtos_hm_board.MainTask.{signal_lines, send_signal, send_text, power_switch_toggle}
use rtos_hm_board.MainTask.Messages.{signal_line}
use rtos_hm_board.MainTask.State.{
  Board, Action, Outcome, done, reply, clock_off, clock_on, delay_ms, note, on_spi,
}
use rtos_hm_board.MainTask.Texts.{sprintf-fits, signal_line_fits}

-- A line for each of `n` words from index `i` on.
pub line_actions : Packet → (ℕ → ℕ) → ℕ → ℕ → List Action
line_actions p word zero i = []
line_actions p word (suc n) i =
    reply p.src p.sport p.dport (signal_line i (word i)) 100
    ∷ delay_ms 2
    ∷ line_actions p word n (i + 1)

line_actions_same :
    (p : Packet) (word word' : ℕ → ℕ) (n i : ℕ)
    → ((j : ℕ) → j < i + n → word j ≡ word' j)
    → line_actions p word n i ≡ line_actions p word' n i
unfolding line_actions
line_actions_same p word word' zero i same = refl
line_actions_same p word word' (suc n) i same =
    ap₂ (λ w rest. reply p.src p.sport p.dport (signal_line i w) 100 ∷ delay_ms 2 ∷ rest)
      (same i (omega arith))
      (line_actions_same p word word' n (i + 1) (λ j lt. same j (omega arith)))

-- Everything that `sendSignal` does.
abbrev pub signal_actions : Packet → (ℕ → ℕ) → List Action
signal_actions p word =
    clock_off
    ∷ delay_ms 4
    ∷ reply p.src p.sport p.dport (codes "Sampled signal\n") 100
    ∷ delay_ms 4
    ∷ (line_actions p word mem_signal_length 0 ++ (clock_on ∷ []))

module _ {bus : SpiBus} (chip : SerialMemory bus) (room : mem_signal_offset + 2 ≤ chip.size)
    (f : FloatOps) {Pin : Type 0} (toggle : Pin → Pin) (accepted : List Action → Bool)
    (p : Packet) where
  -- The outcome of a handler that sends some actions and leaves the memory's cells.
  Sends : List Action → Board bus Pin → Outcome (Board bus Pin) → Type 0
  Sends actions b o =
      (b' : Board bus Pin) × (o ≡ done b')
      × (b'.log ≡ b.log ++ actions)
      × (contents chip b'.sampler.spi ≡ contents chip b.sampler.spi)

  signal_lines-Sends :
      (m : Cells) (n i : ℕ) (b : Board bus Pin)
      → i + n ≤ mem_signal_length
      → IsReady chip b.sampler.spi
      → contents chip b.sampler.spi ≡ m
      → Sends
          (line_actions p (λ j. word_at m (j * 2)) n i)
          b
          (signal_lines f toggle accepted n i p b)
  unfolding signal_lines line_actions Sends
  signal_lines-Sends m zero i b le ready same = (b, refl, sym (append-nil b.log), refl)
  signal_lines-Sends m (suc n) i b le ready same =
      let address = (i * 2 + mem_signal_begin) % 2 ^ 16 in
      let place : address ≡ i * 2 = omega arith in
      let (value, kept) =
        spi_mem_read_word_lem chip address ready (omega arith, omega (arith, room)) in
      let (word, spi) = spi_mem_read_word bus address b.sampler.spi in
      let word_lem : word ≡ word_at m (i * 2) = value ∙ ap₂ word_at same place in
      let text = signal_line i word in
      let b1 = note (delay_ms 2) (send_text f toggle accepted p text 100 (on_spi spi b)).0 in
      let line = λ (t : ℕ). reply p.src p.sport p.dport (signal_line i t) 100 in
      let rest_actions = line_actions p (λ j. word_at m (j * 2)) n (i + 1) in
      let (b2, ends, log_lem, cells_lem) =
        signal_lines-Sends m n (i + 1) b1 (omega arith) kept.ready (kept.same ∙ same) in
      (
        b2,
        rw (sprintf-fits 30 text (signal_line_fits i word)) ends,
        log_lem
            ∙ append_assoc (b.log ++ (line word ∷ [])) (delay_ms 2 ∷ []) rest_actions
            ∙ append_assoc b.log (line word ∷ []) (delay_ms 2 ∷ rest_actions)
            ∙ ap (λ (t : ℕ). b.log ++ (line t ∷ delay_ms 2 ∷ rest_actions)) word_lem,
        cells_lem ∙ kept.same,
      )

  send_signal-Sends :
      (b : Board bus Pin)
      → IsReady chip b.sampler.spi
      → Sends
          (signal_actions p (λ j. word_at (contents chip b.sampler.spi) (j * 2)))
          b
          (send_signal f toggle accepted p b)
  unfolding send_signal Sends
  send_signal-Sends b ready =
      let text = codes "Sampled signal\n" in
      let b1 = note (delay_ms 4) (note clock_off (power_switch_toggle f toggle accepted b)) in
      let b2 = note (delay_ms 4) (send_text f toggle accepted p text 100 b1).0 in
      let header = reply p.src p.sport p.dport text 100 in
      let lines =
        line_actions p (λ j. word_at (contents chip b.sampler.spi) (j * 2)) mem_signal_length 0 in
      let (b3, ends, log_lem, cells_lem) =
        signal_lines-Sends (contents chip b.sampler.spi) mem_signal_length 0 b2 (omega arith) ready
          refl in
      (
        note clock_on b3,
        rw (sprintf-fits 30 text (omega arith), ends) refl,
        ap (λ l. l ++ (clock_on ∷ [])) log_lem ∙ simp append_assoc refl,
        cells_lem,
      )

  -- After a complete measurement of 2048 samples from the first place on, `sendSignal` comes to its
  -- end, and exactly this has been done: the RTOS timer was stopped, a title was sent, then a line
  -- for each sample in order with its time in steps of 5 and the averaged conversion, and the timer
  -- was started again, with the delays between. The cells of the memory are unchanged.
  pub send_signal-measured :
      (start : Sampler bus Pin) (rs : List Readings) (b : Board bus Pin)
      → length rs ≡ mem_signal_length
      → start.count ≡ 0
      → IsComplete chip toggle start rs b.sampler
      → (b' : Board bus Pin) × (send_signal f toggle accepted p b ≡ done b')
        × (b'.log ≡ b.log ++ signal_actions p (λ i. adca_read_ch0 (get_or rs i silence)))
        × (contents chip b'.sampler.spi ≡ contents chip b.sampler.spi)
  unfolding Sends
  send_signal-measured start rs b full count_lem complete =
      let (b', ends, log_lem, cells_lem) = send_signal-Sends b complete.ready in
      let lines =
        line_actions_same p (λ j. word_at (contents chip b.sampler.spi) (j * 2))
          (λ i. adca_read_ch0 (get_or rs i silence)) mem_signal_length 0
          (λ j lt.
            sample_word_lem chip toggle start b.sampler rs full count_lem complete j
              (omega arith)) in
      (
        b',
        ends,
        log_lem
            ∙ ap
                (λ ls.
                  b.log
                  ++ (clock_off
                      ∷ delay_ms 4
                      ∷ reply p.src p.sport p.dport (codes "Sampled signal\n") 100
                      ∷ delay_ms 4
                      ∷ (ls ++ (clock_on ∷ []))))
                lines,
        cells_lem,
      )
