-- ===== src/TimerCounter/Clocks.antt =====
-- The clock of timer TCC0, which the tasks stop and start again through MyDrivers/TC_driver.c.
use rtos_hm_board.Prelude.{ℕ, ◌^◌, ◌<◌, ◌≡◌, refl, ap, sym, ◌∙◌, bit_and, bit_or}
use rtos_hm_board.Prelude.Fields.{
  complement, set_field, bit_and-set_field, set_field-keeps, set_field-same,
}
use rtos_hm_board.TimerCounter.{TimerCounter, TcBits}
use rtos_hm_board.TimerCounter.Tc0.{config_clock_source}

-- Stopping a timer of type 0 and starting it again, with codes that lie within the field of the
-- clock source: the field is the new source, and the other bits of CTRLA and all other registers
-- are as they were before the timer was stopped. If the timer ran with that source, nothing has
-- changed.
pub config_clock_source-restarts :
    (b : TcBits) (t : TimerCounter) (off source : ℕ)
    → b.clksel < 2 ^ 8
    → t.ctrla < 2 ^ 8
    → bit_and off b.clksel ≡ off
    → bit_and source b.clksel ≡ source
    → let t' = config_clock_source b source (config_clock_source b off t) in
      (bit_and t'.ctrla b.clksel ≡ source)
      × (bit_and t'.ctrla (complement 8 b.clksel) ≡ bit_and t.ctrla (complement 8 b.clksel))
      × (t' ≡ record t { ctrla = t'.ctrla })
      × (bit_and t.ctrla b.clksel ≡ source → t' ≡ t)
unfolding config_clock_source
config_clock_source-restarts b t off source small byte h k =
    let stopped = set_field 8 t.ctrla b.clksel off in
    let kept = set_field-keeps 8 t.ctrla b.clksel off small h in
    (
      bit_and-set_field 8 stopped b.clksel source small k,
      set_field-keeps 8 stopped b.clksel source small k ∙ kept,
      refl,
      λ before.
          ap (λ x. record t { ctrla = x })
            (ap (λ x. bit_or x source) kept
              ∙ ap (bit_or (bit_and t.ctrla (complement 8 b.clksel))) (sym before)
              ∙ set_field-same 8 t.ctrla b.clksel small byte),
    )
