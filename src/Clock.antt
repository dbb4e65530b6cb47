-- ===== src/Clock.antt =====
-- The three counters of system.c and the overflow interrupt of timer TCC1, which counts them.
pub mod Laws
use rtos_hm_board.Prelude.{ℕ, zero, suc, ◌+◌, ◌%◌, ◌^◌, ◌==◌, if◌then◌else◌}

-- `milisecondsTimer`, `secondsTimer` and `hoursTimer`, each an `unsigned long`.
pub record Timers : Type 0 where
  pub miliseconds : ℕ
  pub seconds : ℕ
  pub hours : ℕ

-- What `boardInit` sets them to.
abbrev pub cleared : Timers
cleared = record { miliseconds = 0; seconds = 0; hours = 0 }

abbrev pub increment : ℕ → ℕ
increment n = (n + 1) % 2 ^ 32

-- ISR(TCC1_OVF_vect): each `x++ == limit` compares the old value, and counts in both cases.
pub tick : Timers → Timers
tick t =
    if t.miliseconds == 1000
    then (if t.seconds == 3600
        then record { miliseconds = 0; seconds = 0; hours = increment t.hours }
        else record { miliseconds = 0; seconds = increment t.seconds; hours = t.hours })
    else record t { miliseconds = increment t.miliseconds }

-- The interrupt, `n` times.
pub ticks : ℕ → Timers → Timers
ticks zero t = t
ticks (suc n) t = ticks n (tick t)
