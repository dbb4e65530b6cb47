-- ===== src/MainTask.antt =====
-- mainTask.c: the task that answers the packets in the queue.
pub mod State
pub mod Measured
pub mod Messages
pub mod Texts
pub mod Answers
pub mod Replies
pub mod Fulfils
pub mod Waiting
pub mod System
pub mod Invariant
pub mod Rounds
pub mod Signal
pub mod Spectrum
pub mod Temperature
pub mod HouseKeeping
use rtos_hm_board.Prelude.{
  ℕ, zero, suc, ◌+◌, ◌-◌, ◌*◌, ◌/◌, ◌%◌, ◌^◌, ltb, if◌then◌else◌, Bool, true, false, List, [], ◌∷◌,
  ◌++◌, Option, none, some,
}
use rtos_hm_board.Prelude.Signed.{ℤ, pos, negsuc}
use rtos_hm_board.Config.{mem_signal_begin, mem_signal_length, mem_fft_begin, no_points}
use rtos_hm_board.SpiMemory.{
  Spi, FloatOps, Complex, spi_mem_read_word, spi_mem_write_word, spi_mem_read_complex,
  spi_mem_write_complex,
}
use rtos_hm_board.SpiMemory.Bus.{SpiBus}
use rtos_hm_board.Clock.{Timers}
use rtos_hm_board.Sampling.{Sampler, Readings, sample, samples}
use rtos_hm_board.Fft.{decimate_and_store, fft_calculate}
use rtos_hm_board.Text.{codes, print_int, divide16, remainder16}
use rtos_hm_board.CspTask
use rtos_hm_board.CspTask.{Packet, Event, EventType, EventQueue}
use Messages.{signal_line, spectrum_line, temperature_text, house_keeping_text, test_point}
use State.{
  Wait, from_option, Board, Action, Outcome, done, overflow, waiting, ◌>>=◌, sprintf, reply,
  toggle_power, clock_off, clock_on, delay_ms, task_delay, on_spi, note,
}

module _ {bus : SpiBus} (f : FloatOps) {Pin : Type 0} (toggle : Pin → Pin)
    (accepted : List Action → Bool) where
  -- `csp_sendto(…, outcomingPacket, timeout)` with the reply's text, and its answer.
  abbrev pub send_text : Packet → List ℕ → ℕ → Board bus Pin → Board bus Pin × Bool
  send_text p text timeout b =
      let b' = note (reply p.src p.sport p.dport text timeout) b in (b', accepted b'.log)

  abbrev pub power_switch_toggle : Board bus Pin → Board bus Pin
  power_switch_toggle b = toggle_power toggle b

  -- `while(sampling==true);` with the readings at the interrupts that come meanwhile. The flag is
  -- read in each round, or only once. If there are no more interrupts, the task waits forever.
  unfoldable pub wait_sampling : Bool → List Readings → Sampler bus Pin → Outcome (Sampler bus Pin)
  wait_sampling rereads [] s = if s.sampling then waiting else done s
  wait_sampling rereads (r ∷ rs) s =
      let rest = wait_sampling rereads rs (sample bus toggle r s) in
      if s.sampling then (if rereads then rest else waiting) else done s

  unfoldable pub process_all : Wait → Packet → Board bus Pin → Outcome (Board bus Pin)
  process_all wait p b = do
    let b1 =
        note (task_delay 2000)
          (record b { sampler = record b.sampler { count = 0; sampling = true } })
    s ← wait_sampling wait.rereads wait.after (samples bus toggle wait.during b1.sampler)
    let b2 = power_switch_toggle (record b1 { sampler = s })
    spi ← from_option (fft_calculate bus f (decimate_and_store bus f b2.sampler.spi))
    let b3 = power_switch_toggle (record b2 { sampler = record b2.sampler { spi = spi } })
    text ← sprintf 20 (codes "Sampling and computing done\n")
    done (note (task_delay 10) (send_text p text 1000 b3).0)

  -- The loop of `sendSignal`, with `n` rounds left at index `i`.
  unfoldable pub signal_lines : ℕ → ℕ → Packet → Board bus Pin → Outcome (Board bus Pin)
  signal_lines zero i p b = done b
  signal_lines (suc n) i p b =
      let (word, spi) = spi_mem_read_word bus ((i * 2 + mem_signal_begin) % 2 ^ 16) b.sampler.spi in
      sprintf 30 (signal_line i word) >>= λ text.
      signal_lines n (i + 1) p (note (delay_ms 2) (send_text p text 100 (on_spi spi b)).0)

  unfoldable pub send_signal : Packet → Board bus Pin → Outcome (Board bus Pin)
  send_signal p b = do
    let b1 = note (delay_ms 4) (note clock_off (power_switch_toggle b))
    text ← sprintf 30 (codes "Sampled signal\n")
    let b2 = note (delay_ms 4) (send_text p text 100 b1).0
    b3 ← signal_lines mem_signal_length 0 p b2
    done (note clock_on b3)

  -- The loop of `sendFFT`; a line that was sent toggles the power switch.
  unfoldable pub spectrum_lines : ℕ → ℕ → Packet → Board bus Pin → Outcome (Board bus Pin)
  spectrum_lines zero i p b = done b
  spectrum_lines (suc n) i p b =
      let (point, spi) =
        spi_mem_read_complex bus f ((i * 8 + mem_fft_begin) % 2 ^ 16) b.sampler.spi in
      sprintf 30 (spectrum_line f i point) >>= λ text.
      let (sent, success) = send_text p text 10 (on_spi spi b) in
      spectrum_lines n (i + 1) p
        (note (delay_ms 4) (if success then power_switch_toggle sent else sent))

  unfoldable pub send_fft : Packet → Board bus Pin → Outcome (Board bus Pin)
  send_fft p b = do
    let b1 = power_switch_toggle (note (delay_ms 5) (note clock_off b))
    text ← sprintf 30 (codes "Sampled signal\n")
    b2 ← spectrum_lines (no_points / 2) 0 p (send_text p text 15 b1).0
    done (note clock_on b2)

  -- `sendFreeHeapSpace`, which replies with what `ADT_get_temperature` returns.
  unfoldable pub send_free_heap_space : ℕ → Packet → Board bus Pin → Outcome (Board bus Pin)
  send_free_heap_space temp p b = do
    let b1 = note clock_off b
    text ← sprintf 20 (temperature_text temp)
    done (note clock_on (send_text p text 10 b1).0)

  abbrev pub memory_test : Spi bus → Spi bus
  memory_test s =
      let s1 =
        (spi_mem_read_complex bus f 145 (spi_mem_write_complex bus f 145 (test_point f) s)).1 in
      (spi_mem_read_word bus 0x789 (spi_mem_write_word bus 0x789 7442 s1)).1

  unfoldable pub house_keeping : Packet → Board bus Pin → Outcome (Board bus Pin)
  house_keeping p b = do
    let b1 = on_spi (memory_test b.sampler.spi) (note clock_off b)
    text ← sprintf 64 (house_keeping_text b.timers)
    let (sent, success) = send_text p text 50 b1
    let b2 = if success then power_switch_toggle sent else sent
    done (note clock_on (note (delay_ms 300) b2))

  -- `echoBack` sends the packet that came in.
  unfoldable pub echo_back : Packet → Board bus Pin → Outcome (Board bus Pin)
  echo_back p b =
      let (sent, success) = send_text p p.bytes 1000 b in
      done (if success then power_switch_toggle sent else sent)

  -- The `switch` of `mainTask`. `wait` is what the handler of a measurement meets, and the
  -- temperature is that of the sensor.
  unfoldable pub handle : Wait → ℕ → EventType → Packet → Board bus Pin → Outcome (Board bus Pin)
  handle wait temp CspTask.free_heap p b = send_free_heap_space temp p b
  handle wait temp CspTask.echo_back p b = echo_back p b
  handle wait temp CspTask.house_keeping p b = house_keeping p b
  handle wait temp CspTask.process_all p b = process_all wait p b
  handle wait temp CspTask.send_signal p b = send_signal p b
  handle wait temp CspTask.send_fft p b = send_fft p b
  handle wait temp CspTask.send_attenuation p b = done b
  handle wait temp CspTask.send_summary_info p b = done b

  -- One round of the loop of `mainTask`.
  unfoldable pub main_task_round :
      (q : EventQueue) → Wait → ℕ → q.Queue × Board bus Pin → Outcome (q.Queue × Board bus Pin)
  main_task_round q wait temp (u, b) = elim (q.receive u) [
    | none ↦ done (u, b)
    | some (e, u') ↦ handle wait temp e.event_type e.packet b >>= λ b'. done (u', b')
  ]
