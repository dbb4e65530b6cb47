-- ===== src/MainTask/Replies.antt =====
-- What the handlers of mainTask.c send, and to whom.
use rtos_hm_board.Prelude.{
  ℕ, zero, suc, ◌+◌, ◌*◌, ◌/◌, ◌%◌, ◌^◌, ◌≡◌, ◌≢◌, refl, arith, if◌then◌else◌, Bool, true, false,
  List,
}
use rtos_hm_board.SpiMemory.{FloatOps, spi_mem_read_word, spi_mem_read_complex}
use rtos_hm_board.SpiMemory.Bus.{SpiBus}
use rtos_hm_board.Config.{mem_signal_begin, mem_signal_length, mem_fft_begin, no_points}
use rtos_hm_board.Text.{codes}
use rtos_hm_board.CspTask
use rtos_hm_board.CspTask.{Packet, Event, EventType}
use rtos_hm_board.MainTask.{
  signal_lines, send_signal, spectrum_lines, send_fft, send_free_heap_space, house_keeping,
  echo_back, handle, send_text, memory_test, power_switch_toggle,
}
use rtos_hm_board.MainTask.State.{
  Wait, Board, Action, done, reply, clock_off, clock_on, delay_ms, note, on_spi,
}
use rtos_hm_board.MainTask.Texts.{
  sprintf-fits, signal_line_fits, spectrum_line_fits, temperature_text_fits,
  house_keeping_text_fits,
}
use rtos_hm_board.MainTask.Messages.{
  signal_line, spectrum_line, temperature_text, house_keeping_text,
}
use rtos_hm_board.MainTask.Answers.{Answers, same_log, one, both, Finishes, after}

module _ {bus : SpiBus} (f : FloatOps) {Pin : Type 0} (toggle : Pin → Pin)
    (accepted : List Action → Bool) (p : Packet) where
  sent :
      (c : Bool) (text : List ℕ) (n : ℕ) (b : Board bus Pin)
      → Answers p c c b (send_text f toggle accepted p text n b).0
  sent c text n b = one p c (reply p.src p.sport p.dport text n) (refl, refl, refl)

  delayed : (c : Bool) (n : ℕ) (b : Board bus Pin) → Answers p c c b (note (delay_ms n) b)
  delayed c n b = one p c (delay_ms n) tt

  stopped : (c : Bool) (b : Board bus Pin) → Answers p c false b (note clock_off b)
  stopped c b = one p c clock_off tt

  started : (c : Bool) (b : Board bus Pin) → Answers p c true b (note clock_on b)
  started c b = one p c clock_on tt

  toggled_if :
      (c : Bool) (x : Bool) (b : Board bus Pin)
      → Answers p c c b (if x then power_switch_toggle f toggle accepted b else b)
  toggled_if c true b = same_log p c refl (refl, refl, refl, refl)
  toggled_if c false b = same_log p c refl (refl, refl, refl, refl)

  signal_lines_lem :
      (c : Bool) (n i : ℕ) (b : Board bus Pin)
      → Finishes p c c b (signal_lines f toggle accepted n i p b)
  unfolding signal_lines
  signal_lines_lem c zero i b = (b, refl, same_log p c refl (refl, refl, refl, refl))
  signal_lines_lem c (suc n) i b =
      let (word, spi) = spi_mem_read_word bus ((i * 2 + mem_signal_begin) % 2 ^ 16) b.sampler.spi in
      let b1 = on_spi spi b in
      let b2 = (send_text f toggle accepted p (signal_line i word) 100 b1).0 in
      rw (sprintf-fits 30 (signal_line i word) (signal_line_fits i word)) (
        after p {b = b} {b' = note (delay_ms 2) b2}
          (both p {b' = b1} (same_log p c refl (refl, refl, refl, refl))
            (both p {b' = b2} (sent c (signal_line i word) 100 b1) (delayed c 2 b2)))
          (signal_lines_lem c n (i + 1) (note (delay_ms 2) b2)))

  spectrum_lines_lem :
      (c : Bool) (n i : ℕ) (b : Board bus Pin)
      → Finishes p c c b (spectrum_lines f toggle accepted n i p b)
  unfolding spectrum_lines
  spectrum_lines_lem c zero i b = (b, refl, same_log p c refl (refl, refl, refl, refl))
  spectrum_lines_lem c (suc n) i b =
      let (point, spi) =
        spi_mem_read_complex bus f ((i * 8 + mem_fft_begin) % 2 ^ 16) b.sampler.spi in
      let b1 = on_spi spi b in
      let (b2, success) = send_text f toggle accepted p (spectrum_line f i point) 10 b1 in
      let b3 : Board bus Pin = if success then power_switch_toggle f toggle accepted b2 else b2 in
      rw (sprintf-fits 30 (spectrum_line f i point) (spectrum_line_fits f i point)) (
        after p {b = b} {b' = note (delay_ms 4) b3}
          (both p {b' = b1} (same_log p c refl (refl, refl, refl, refl)) (
            both p {b' = b2} (sent c (spectrum_line f i point) 10 b1)
              (both p {b' = b3} (toggled_if c success b2) (delayed c 4 b3))))
          (spectrum_lines_lem c n (i + 1) (note (delay_ms 4) b3)))

  send_signal_lem :
      (c : Bool) (b : Board bus Pin) → Finishes p c true b (send_signal f toggle accepted p b)
  unfolding send_signal
  send_signal_lem c b =
      let text = codes "Sampled signal\n" in
      let b1 = power_switch_toggle f toggle accepted b in
      let b2 = note clock_off b1 in
      let b3 = note (delay_ms 4) b2 in
      let b4 = (send_text f toggle accepted p text 100 b3).0 in
      let b5 = note (delay_ms 4) b4 in
      let (b6, lines, k) = signal_lines_lem false mem_signal_length 0 b5 in
      let opening = both p {b = b} {b' = b1} (same_log p c refl (refl, refl, refl, refl)) (
        both p {b' = b2} (stopped c b1) (
          both p {b' = b3} (delayed false 4 b2)
            (both p {b' = b4} (sent false text 100 b3) (delayed false 4 b4)))) in
      rw (sprintf-fits 30 text (omega arith), lines)
        (note clock_on b6, refl, both p opening (both p k (started false b6)))

  send_fft_lem :
      (c : Bool) (b : Board bus Pin) → Finishes p c true b (send_fft f toggle accepted p b)
  unfolding send_fft
  send_fft_lem c b =
      let text = codes "Sampled signal\n" in
      let b1 = note clock_off b in
      let b2 = note (delay_ms 5) b1 in
      let b3 = power_switch_toggle f toggle accepted b2 in
      let b4 = (send_text f toggle accepted p text 15 b3).0 in
      let (b5, lines, k) = spectrum_lines_lem false (no_points / 2) 0 b4 in
      let opening = both p {b = b} {b' = b1} (stopped c b) (
        both p {b' = b2} (delayed false 5 b1) (
          both p {b' = b3} (same_log p false refl (refl, refl, refl, refl))
            (sent false text 15 b3))) in
      rw (sprintf-fits 30 text (omega arith), lines)
        (note clock_on b5, refl, both p opening (both p k (started false b5)))

  send_free_heap_space_lem :
      (c : Bool) (temp : ℕ) (b : Board bus Pin)
      → Finishes p c true b (send_free_heap_space f toggle accepted temp p b)
  unfolding send_free_heap_space
  send_free_heap_space_lem c temp b =
      let b1 = note clock_off b in
      let b2 = (send_text f toggle accepted p (temperature_text temp) 10 b1).0 in
      rw (sprintf-fits 20 (temperature_text temp) (temperature_text_fits temp)) (
        note clock_on b2,
        refl,
        both p {b = b} {b' = b1} (stopped c b)
            (both p {b' = b2} (sent false (temperature_text temp) 10 b1) (started false b2)),
      )

  house_keeping_lem :
      (c : Bool) (b : Board bus Pin) → Finishes p c true b (house_keeping f toggle accepted p b)
  unfolding house_keeping
  house_keeping_lem c b =
      let text = house_keeping_text b.timers in
      let b0 = note clock_off b in
      let b1 = on_spi (memory_test f toggle accepted b.sampler.spi) b0 in
      let (b2, success) = send_text f toggle accepted p text 50 b1 in
      let b3 : Board bus Pin = if success then power_switch_toggle f toggle accepted b2 else b2 in
      let b4 = note (delay_ms 300) b3 in
      rw (sprintf-fits 64 text (house_keeping_text_fits b.timers)) (
        note clock_on b4,
        refl,
        both p {b = b} {b' = b0} (stopped c b) (
            both p {b' = b1} (same_log p false refl (refl, refl, refl, refl)) (
              both p {b' = b2} (sent false text 50 b1) (
                both p {b' = b3} (toggled_if false success b2)
                  (both p {b' = b4} (delayed false 300 b3) (started false b4))))),
      )

  echo_back_lem :
      (c : Bool) (b : Board bus Pin) → Finishes p c c b (echo_back f toggle accepted p b)
  unfolding echo_back
  echo_back_lem c b =
      let (b1, success) = send_text f toggle accepted p p.bytes 1000 b in
      let b2 : Board bus Pin = if success then power_switch_toggle f toggle accepted b1 else b1 in
      (b2, refl, both p {b = b} {b' = b1} (sent c p.bytes 1000 b) (toggled_if c success b1))

module _ {bus : SpiBus} (f : FloatOps) {Pin : Type 0} (toggle : Pin → Pin)
    (accepted : List Action → Bool) where
  -- Any event but `process_all` is handled to its end, without a write past the end of a text's
  -- array, whatever the memory holds and whether or not the packets are accepted. All replies go
  -- to the sender of the packet, from the port that it was sent to, and if the timer that drives
  -- the RTOS runs before, it runs afterwards. No measurement begins or ends, and the counters of the
  -- uptime and of the samples are as before.
  pub handle-Answers :
      (wait : Wait) (temp : ℕ) (t : EventType) (p : Packet) (b : Board bus Pin)
      → t ≢ CspTask.process_all
      → (b' : Board bus Pin) × (handle f toggle accepted wait temp t p b ≡ done b')
        × Answers p true true b b'
  unfolding handle
  handle-Answers wait temp CspTask.free_heap p b other =
      send_free_heap_space_lem f toggle accepted p true temp b
  handle-Answers wait temp CspTask.echo_back p b other = echo_back_lem f toggle accepted p true b
  handle-Answers wait temp CspTask.house_keeping p b other =
      house_keeping_lem f toggle accepted p true b
  handle-Answers wait temp CspTask.process_all p b other = absurd (other refl)
  handle-Answers wait temp CspTask.send_signal p b other =
      send_signal_lem f toggle accepted p true b
  handle-Answers wait temp CspTask.send_fft p b other = send_fft_lem f toggle accepted p true b
  handle-Answers wait temp CspTask.send_attenuation p b other =
      (b, refl, same_log p true refl (refl, refl, refl, refl))
  handle-Answers wait temp CspTask.send_summary_info p b other =
      (b, refl, same_log p true refl (refl, refl, refl, refl))
