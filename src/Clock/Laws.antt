-- ===== src/Clock/Laws.antt =====
-- How far the counters of system.c are from real time.
use rtos_hm_board.Prelude.{ℕ, zero, suc, ◌+◌, ◌*◌, ◌/◌, ◌%◌, ◌^◌, ◌≤◌, ◌<◌, ◌≡◌, arith}
use rtos_hm_board.Clock.{Timers, cleared, tick, ticks}

-- The ranges of the two lower counters, and that the hours have not wrapped.
pub record IsValid (t : Timers) : Type 0 where
  pub miliseconds_in : t.miliseconds ≤ 1000
  pub seconds_in : t.seconds ≤ 3600
  pub hours_in : t.hours < 2 ^ 32

-- How many interrupts the counters stand for: 1001 to a second, and 3601 seconds to an hour.
abbrev pub count : Timers → ℕ
count t = t.miliseconds + 1001 * (t.seconds + 3601 * t.hours)

abbrev pub hour : ℕ
hour = 1001 * 3601

tick_lem :
    (t : Timers)
    → IsValid t
    → count t + 1 < hour * 2 ^ 32
    → IsValid (tick t) × (count (tick t) ≡ count t + 1)
unfolding tick
tick_lem t v h = ground arith

-- From counters in their ranges, `n` interrupts add exactly `n` to the number of interrupts that
-- the counters stand for, and keep the ranges, as long as the hours do not wrap.
pub ticks_lem :
    (n : ℕ) (t : Timers)
    → IsValid t
    → count t + n < hour * 2 ^ 32
    → IsValid (ticks n t) × (count (ticks n t) ≡ count t + n)
unfolding ticks
ticks_lem zero t v h = (v, omega arith)
ticks_lem (suc n) t v h =
    let stepped = tick_lem t v (omega arith) in
    let rest = ticks_lem n (tick t) stepped.0 (omega arith) in (rest.0, omega arith)

-- After `n` interrupts from the cleared counters, as long as the hours do not wrap, the three
-- counters are the quotients and remainders of `n` by 1001 and 3601: a second takes 1001
-- interrupts, and an hour 3601 seconds.
pub ticks-cleared :
    (n : ℕ)
    → n < hour * 2 ^ 32
    → ((ticks n cleared).miliseconds ≡ n % 1001)
      × ((ticks n cleared).seconds ≡ n / 1001 % 3601)
      × ((ticks n cleared).hours ≡ n / hour)
ticks-cleared n h =
    let counted = ticks_lem n cleared (omega arith) (omega arith) in
    (omega arith, omega arith, omega arith)

-- From the cleared counters, after any number of interrupts from 1000000 to 3599999, the seconds
-- counter is behind the number of interrupts divided by 1000, which is the number of whole seconds
-- if an interrupt comes each millisecond.
pub seconds_run_slow :
    (n : ℕ) → 1000 * 1000 ≤ n → n < 1000 * 3600 → (ticks n cleared).seconds < n / 1000
seconds_run_slow n lo hi = let split = ticks-cleared n (omega arith) in omega arith
