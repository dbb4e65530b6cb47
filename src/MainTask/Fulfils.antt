-- ===== src/MainTask/Fulfils.antt =====
-- Exactly what each handler of mainTask.c does for its event.
use mathlib.Core.List.{append_assoc, append-nil}
use rtos_hm_board.Prelude.{
  ℕ, zero, suc, ◌+◌, ◌*◌, ◌/◌, ◌%◌, ◌^◌, ◌≡◌, ◌≢◌, refl, ap, ◌∙◌, sym, arith, if◌then◌else◌, List,
  [], ◌∷◌, ◌++◌, length, Bool, true, false,
}
use rtos_hm_board.Config.{mem_signal_begin, mem_signal_length, mem_fft_begin, no_points}
use rtos_hm_board.SpiMemory.{FloatOps, Complex, spi_mem_read_word, spi_mem_read_complex}
use rtos_hm_board.SpiMemory.Bus.{SpiBus}
use rtos_hm_board.Clock.{Timers}
use rtos_hm_board.Text.{codes}
use rtos_hm_board.CspTask
use rtos_hm_board.CspTask.{Packet, EventType}
use rtos_hm_board.MainTask.{
  signal_lines, send_signal, spectrum_lines, send_fft, send_free_heap_space, house_keeping,
  echo_back, handle, send_text, memory_test, power_switch_toggle,
}
use rtos_hm_board.MainTask.Messages.{
  signal_line, spectrum_line, temperature_text, house_keeping_text,
}
use rtos_hm_board.MainTask.State.{
  Wait, Board, Action, Outcome, done, reply, clock_off, clock_on, delay_ms, note, on_spi,
}
use rtos_hm_board.MainTask.Texts.{
  sprintf-fits, signal_line_fits, spectrum_line_fits, temperature_text_fits,
  house_keeping_text_fits,
}

-- A line for each of the words, from index `i` on.
pub signal_replies : Packet → ℕ → List ℕ → List Action
signal_replies p i [] = []
signal_replies p i (w ∷ ws) =
    reply p.src p.sport p.dport (signal_line i w) 100 ∷ delay_ms 2 ∷ signal_replies p (i + 1) ws

module _ (f : FloatOps) where
  -- A line for each of the points, from index `i` on.
  pub spectrum_replies : Packet → ℕ → List (Complex f) → List Action
  spectrum_replies p i [] = []
  spectrum_replies p i (c ∷ cs) =
      reply p.src p.sport p.dport (spectrum_line f i c) 10
      ∷ delay_ms 4
      ∷ spectrum_replies p (i + 1) cs

  -- The actions that an event asks for: an echo of the packet; the temperature; the report; a title
  -- and a line for each of 2048 samples, or of 256 points; and none for the two events without a
  -- handler. All replies go to the sender of the packet, from the port that it was sent to.
  abbrev pub Fulfils : EventType → Packet → List Action → Type 0
  Fulfils CspTask.echo_back p actions = actions ≡ reply p.src p.sport p.dport p.bytes 1000 ∷ []
  Fulfils CspTask.free_heap p actions =
      (temp : ℕ) × (actions
        ≡ clock_off ∷ reply p.src p.sport p.dport (temperature_text temp) 10 ∷ clock_on ∷ [])
  Fulfils CspTask.house_keeping p actions =
      (t : Timers) × (actions
        ≡ clock_off
          ∷ reply p.src p.sport p.dport (house_keeping_text t) 50
          ∷ delay_ms 300
          ∷ clock_on
          ∷ [])
  Fulfils CspTask.process_all p actions = ⊥
  Fulfils CspTask.send_signal p actions =
      (words : List ℕ) × (length words ≡ mem_signal_length)
      × (actions
          ≡ clock_off
            ∷ delay_ms 4
            ∷ reply p.src p.sport p.dport (codes "Sampled signal\n") 100
            ∷ delay_ms 4
            ∷ (signal_replies p 0 words ++ (clock_on ∷ [])))
  Fulfils CspTask.send_fft p actions =
      (points : List (Complex f)) × (length points ≡ no_points / 2)
      × (actions
          ≡ clock_off
            ∷ delay_ms 5
            ∷ reply p.src p.sport p.dport (codes "Sampled signal\n") 15
            ∷ (spectrum_replies p 0 points ++ (clock_on ∷ [])))
  Fulfils CspTask.send_attenuation p actions = actions ≡ []
  Fulfils CspTask.send_summary_info p actions = actions ≡ []

module _ {bus : SpiBus} (f : FloatOps) {Pin : Type 0} (toggle : Pin → Pin)
    (accepted : List Action → Bool) (p : Packet) where
  -- A handler that ends and has done what its event asks for.
  abbrev Does : EventType → Board bus Pin → Outcome (Board bus Pin) → Type 0
  Does e b o =
      (b' : Board bus Pin) × (o ≡ done b')
      × (actions : List Action) × (b'.log ≡ b.log ++ actions)
      × Fulfils f e p actions

  if_toggled :
      (c : Bool) (b : Board bus Pin)
      → (if c then power_switch_toggle f toggle accepted b else b).log ≡ b.log
  if_toggled true b = refl
  if_toggled false b = refl

  signal_lines_words :
      (n i : ℕ) (b : Board bus Pin)
      → (words : List ℕ) × (b' : Board bus Pin) × (length words ≡ n)
        × (signal_lines f toggle accepted n i p b ≡ done b')
        × (b'.log ≡ b.log ++ signal_replies p i words)
  unfolding signal_lines signal_replies
  signal_lines_words zero i b = ([], b, refl, refl, sym (append-nil b.log))
  signal_lines_words (suc n) i b =
      let (word, spi) = spi_mem_read_word bus ((i * 2 + mem_signal_begin) % 2 ^ 16) b.sampler.spi in
      let text = signal_line i word in
      let b1 = note (delay_ms 2) (send_text f toggle accepted p text 100 (on_spi spi b)).0 in
      let (words, b', size, ends, log_lem) = signal_lines_words n (i + 1) b1 in
      (
        word ∷ words,
        b',
        ap suc size,
        rw (sprintf-fits 30 text (signal_line_fits i word)) ends,
        log_lem ∙ simp append_assoc refl,
      )

  spectrum_lines_points :
      (n i : ℕ) (b : Board bus Pin)
      → (points : List (Complex f)) × (b' : Board bus Pin) × (length points ≡ n)
        × (spectrum_lines f toggle accepted n i p b ≡ done b')
        × (b'.log ≡ b.log ++ spectrum_replies f p i points)
  unfolding spectrum_lines spectrum_replies
  spectrum_lines_points zero i b = ([], b, refl, refl, sym (append-nil b.log))
  spectrum_lines_points (suc n) i b =
      let (point, spi) =
        spi_mem_read_complex bus f ((i * 8 + mem_fft_begin) % 2 ^ 16) b.sampler.spi in
      let text = spectrum_line f i point in
      let (sent, success) = send_text f toggle accepted p text 10 (on_spi spi b) in
      let b1 : Board bus Pin =
        if success then power_switch_toggle f toggle accepted sent else sent in
      let (points, b', size, ends, log_lem) =
        spectrum_lines_points n (i + 1) (note (delay_ms 4) b1) in
      let rest = spectrum_replies f p (i + 1) points in
      (
        point ∷ points,
        b',
        ap suc size,
        rw (sprintf-fits 30 text (spectrum_line_fits f i point)) ends,
        log_lem
            ∙ ap (λ l. (l ++ (delay_ms 4 ∷ [])) ++ rest) (if_toggled success sent)
            ∙ simp append_assoc refl,
      )

  send_signal-Does :
      (b : Board bus Pin) → Does CspTask.send_signal b (send_signal f toggle accepted p b)
  unfolding send_signal
  send_signal-Does b =
      let text = codes "Sampled signal\n" in
      let b1 = note (delay_ms 4) (note clock_off (power_switch_toggle f toggle accepted b)) in
      let b2 = note (delay_ms 4) (send_text f toggle accepted p text 100 b1).0 in
      let (words, b3, size, ends, log_lem) = signal_lines_words mem_signal_length 0 b2 in
      (
        note clock_on b3,
        rw (sprintf-fits 30 text (omega arith), ends) refl,
        clock_off
            ∷ delay_ms 4
            ∷ reply p.src p.sport p.dport text 100
            ∷ delay_ms 4
            ∷ (signal_replies p 0 words ++ (clock_on ∷ [])),
        ap (λ l. l ++ (clock_on ∷ [])) log_lem ∙ simp append_assoc refl,
        (words, size, refl),
      )

  send_fft-Does : (b : Board bus Pin) → Does CspTask.send_fft b (send_fft f toggle accepted p b)
  unfolding send_fft
  send_fft-Does b =
      let text = codes "Sampled signal\n" in
      let b1 = power_switch_toggle f toggle accepted (note (delay_ms 5) (note clock_off b)) in
      let b2 = (send_text f toggle accepted p text 15 b1).0 in
      let (points, b3, size, ends, log_lem) = spectrum_lines_points (no_points / 2) 0 b2 in
      (
        note clock_on b3,
        rw (sprintf-fits 30 text (omega arith), ends) refl,
        clock_off
            ∷ delay_ms 5
            ∷ reply p.src p.sport p.dport text 15
            ∷ (spectrum_replies f p 0 points ++ (clock_on ∷ [])),
        ap (λ l. l ++ (clock_on ∷ [])) log_lem ∙ simp append_assoc refl,
        (points, size, refl),
      )

  send_free_heap_space-Does :
      (temp : ℕ) (b : Board bus Pin)
      → Does CspTask.free_heap b (send_free_heap_space f toggle accepted temp p b)
  unfolding send_free_heap_space
  send_free_heap_space-Does temp b =
      let text = temperature_text temp in
      (
        note clock_on (send_text f toggle accepted p text 10 (note clock_off b)).0,
        rw (sprintf-fits 20 text (temperature_text_fits temp)) refl,
        clock_off ∷ reply p.src p.sport p.dport text 10 ∷ clock_on ∷ [],
        simp append_assoc refl,
        (temp, refl),
      )

  house_keeping-Does :
      (b : Board bus Pin) → Does CspTask.house_keeping b (house_keeping f toggle accepted p b)
  unfolding house_keeping
  house_keeping-Does b =
      let text = house_keeping_text b.timers in
      let b1 = on_spi (memory_test f toggle accepted b.sampler.spi) (note clock_off b) in
      let (sent, success) = send_text f toggle accepted p text 50 b1 in
      let b2 : Board bus Pin =
        if success then power_switch_toggle f toggle accepted sent else sent in
      (
        note clock_on (note (delay_ms 300) b2),
        rw (sprintf-fits 64 text (house_keeping_text_fits b.timers)) refl,
        clock_off ∷ reply p.src p.sport p.dport text 50 ∷ delay_ms 300 ∷ clock_on ∷ [],
        ap (λ l. (l ++ (delay_ms 300 ∷ [])) ++ (clock_on ∷ [])) (if_toggled success sent)
            ∙ simp append_assoc refl,
        (b.timers, refl),
      )

  echo_back-Does : (b : Board bus Pin) → Does CspTask.echo_back b (echo_back f toggle accepted p b)
  unfolding echo_back
  echo_back-Does b =
      let (sent, success) = send_text f toggle accepted p p.bytes 1000 b in
      (
        if success then power_switch_toggle f toggle accepted sent else sent,
        refl,
        reply p.src p.sport p.dport p.bytes 1000 ∷ [],
        if_toggled success sent,
        refl,
      )

  -- Any event but `process_all` is handled to its end, and exactly what it asks for has been done.
  pub handle-Fulfils :
      (wait : Wait) (temp : ℕ) (e : EventType) (b : Board bus Pin)
      → e ≢ CspTask.process_all
      → Does e b (handle f toggle accepted wait temp e p b)
  unfolding handle
  handle-Fulfils wait temp CspTask.free_heap b other = send_free_heap_space-Does temp b
  handle-Fulfils wait temp CspTask.echo_back b other = echo_back-Does b
  handle-Fulfils wait temp CspTask.house_keeping b other = house_keeping-Does b
  handle-Fulfils wait temp CspTask.process_all b other = absurd (other refl)
  handle-Fulfils wait temp CspTask.send_signal b other = send_signal-Does b
  handle-Fulfils wait temp CspTask.send_fft b other = send_fft-Does b
  handle-Fulfils wait temp CspTask.send_attenuation b other =
      (b, refl, [], sym (append-nil b.log), refl)
  handle-Fulfils wait temp CspTask.send_summary_info b other =
      (b, refl, [], sym (append-nil b.log), refl)
