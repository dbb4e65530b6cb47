-- ===== src/Boot/Ends.antt =====
-- What `boardInit` and `main` leave, when the hardware gets ready.
use mathlib.Core.List.{append_assoc}
use rtos_hm_board.Prelude.{
  ℕ, ◌^◌, ◌<◌, ◌≡◌, ◌≢◌, ◌⊎◌, inl, inr, refl, ap, ◌∙◌, arith, ◌==◌, if◌then◌else◌, bit_and, List,
  [], ◌∷◌, ◌++◌, some, true, false, ℕ_discrete,
}
use rtos_hm_board.Prelude.Fields.{bit_and-set_field}
use rtos_hm_board.Clksys.{ClksysHardware, ClksysBits}
use rtos_hm_board.Clksys.Start.{ClksysBitsLaws, HardwareLaws, BecomesReady, enable_xtal_lem}
use rtos_hm_board.Clock.{cleared}
use rtos_hm_board.TimerCounter.{TcBits}
use rtos_hm_board.TimerCounter.Tc0
use rtos_hm_board.TimerCounter.Tc1
use rtos_hm_board.TwiMaster.{MasterBits}
use rtos_hm_board.Boot.{
  BootBits, Adc, Peripherals, adc_settings, start_conversion, wait_conversion, adc_init, call,
  module_calls, spi_mem_init, finish, board_init, main, network_calls, ioport_init, sysclk_init,
  power_switch_output, power_switch_high, delay_us,
}

-- One of the values has a flag.
abbrev pub BecomesFlagged : List ℕ → Type 0
BecomesFlagged [] = ⊥
BecomesFlagged (flags ∷ rest) = (flags ≢ 0) ⊎ BecomesFlagged rest

-- The codes for a timer lie within its fields.
pub record TimerLaws (t : TcBits) (source level : ℕ) : Type 0 where
  pub clksel_in : t.clksel < 2 ^ 8
  pub ovfintlvl_in : t.ovfintlvl < 2 ^ 8
  pub source_within : bit_and source t.clksel ≡ source
  pub level_within : bit_and level t.ovfintlvl ≡ level

module _ (b : BootBits) where
  wait_conversion_lem :
      (flags : List ℕ) (a : Adc)
      → BecomesFlagged flags
      → wait_conversion b flags a ≡ some (record a { ch0_intflags = b.adc_ch_chif })
  unfolding wait_conversion
  wait_conversion_lem [] a flagged = absurd flagged
  wait_conversion_lem (f ∷ rest) a flagged = elim (ℕ_discrete f 0) [
    | yes e ↦
        let test : (f == 0) ≡ true = ground arith in
        ap
          (λ t.
            if t
            then wait_conversion b rest a
            else some (record a { ch0_intflags = b.adc_ch_chif }))
          test
        ∙ wait_conversion_lem rest a (later f rest e flagged)
    | no ne ↦
        let test : (f == 0) ≡ false = ground arith in
        ap
          (λ t.
            if t
            then wait_conversion b rest a
            else some (record a { ch0_intflags = b.adc_ch_chif }))
          test
  ]
    where
      later : (f : ℕ) (rest : List ℕ) → f ≡ 0 → BecomesFlagged (f ∷ rest) → BecomesFlagged rest
      later f rest e (inl ne) = absurd (ne e)
      later f rest e (inr h) = h

module _ (b : BootBits) (mb : MasterBits) (hw : ClksysHardware) (cb : ClksysBits)
    (t0 t1 : TcBits) where
  -- What `boardInit` leaves, once the hardware gets ready.
  board_init_lem :
      (statuses flags : List ℕ) (s : Peripherals)
      → ClksysBitsLaws cb
      → HardwareLaws hw cb
      → TimerLaws t0 b.tc_clksel_div1 b.tc_ovfintlvl_med
      → TimerLaws t1 b.tc_clksel_div1 b.tc_ovfintlvl_lo
      → BecomesReady cb statuses
      → BecomesFlagged flags
      → (s' : Peripherals) × (board_init b mb hw cb t0 t1 statuses flags s ≡ some s')
        × (bit_and s'.clksys.clk_ctrl cb.sclksel ≡ cb.sclksel_xosc)
        × (bit_and s'.tcc1.ctrla t1.clksel ≡ b.tc_clksel_div1)
        × (bit_and s'.tcc1.intctrla t1.ovfintlvl ≡ b.tc_ovfintlvl_lo)
        × (s'.period_c1 ≡ 16469)
        × (bit_and s'.tcd0.ctrla t0.clksel ≡ b.tc_clksel_div1)
        × (bit_and s'.tcd0.intctrla t0.ovfintlvl ≡ b.tc_ovfintlvl_med)
        × (s'.period_d0 ≡ 8234)
        × (s'.timers ≡ cleared)
        × (s'.calls
            ≡ s.calls
              ++ (ioport_init
                  ∷ sysclk_init
                  ∷ (spi_mem_init
                      ++ (module_calls b mb hw cb t0 t1
                          ++ (delay_us 10 ∷ power_switch_output ∷ power_switch_high ∷ [])))))
  unfolding board_init adc_init Tc0.config_clock_source Tc0.set_overflow_int_level
      Tc1.config_clock_source Tc1.set_overflow_int_level spi_mem_init
  board_init_lem statuses flags s clock_laws hardware laws0 laws1 ready flagged =
      let (clksys, clock_ends, source_lem, kept, on, off) =
        enable_xtal_lem hw cb statuses s.clksys clock_laws hardware ready in
      let s1 = record (call (ioport_init ∷ sysclk_init ∷ []) s) { clksys = clksys } in
      let s2 = call (module_calls b mb hw cb t0 t1) (call spi_mem_init s1) in
      let adc = start_conversion b (adc_settings b s2.adc) in
      let s3 =
        call (delay_us 10 ∷ []) (record s2 { adc = record adc { ch0_intflags = b.adc_ch_chif } }) in
      let converted = wait_conversion_lem b flags adc flagged in
      (
        finish b mb hw cb t0 t1 s3,
        rw (clock_ends, board_init) (rw (converted, adc_init) refl),
        source_lem,
        bit_and-set_field 8 s.tcc1.ctrla t1.clksel b.tc_clksel_div1 laws1.clksel_in
            laws1.source_within,
        bit_and-set_field 8 s.tcc1.intctrla t1.ovfintlvl b.tc_ovfintlvl_lo laws1.ovfintlvl_in
            laws1.level_within,
        refl,
        bit_and-set_field 8 s.tcd0.ctrla t0.clksel b.tc_clksel_div1 laws0.clksel_in
            laws0.source_within,
        bit_and-set_field 8 s.tcd0.intctrla t0.ovfintlvl b.tc_ovfintlvl_med laws0.ovfintlvl_in
            laws0.level_within,
        refl,
        refl,
        simp append_assoc refl,
      )

  -- With the laws of the device header and hardware that follows its documentation: if the external
  -- oscillator gets ready and the first conversion ends, `main` reaches the start of the scheduler.
  -- Then the system clock comes from the external oscillator; timer TCC1 runs with that clock, an
  -- interrupt of low level and the period 16469, and TCD0 with an interrupt of medium level and the
  -- period 8234; the uptime is zero; and the calls of vendored code were in this order: pins, clock,
  -- SPI, the seven ports, the delay of the converter, the pin of the power switch set high, which
  -- is its level for off, the network with its route and router, both tasks, and the scheduler last.
  pub main_lem :
      (statuses flags : List ℕ) (s : Peripherals)
      → ClksysBitsLaws cb
      → HardwareLaws hw cb
      → TimerLaws t0 b.tc_clksel_div1 b.tc_ovfintlvl_med
      → TimerLaws t1 b.tc_clksel_div1 b.tc_ovfintlvl_lo
      → BecomesReady cb statuses
      → BecomesFlagged flags
      → (s' : Peripherals) × (main b mb hw cb t0 t1 statuses flags s ≡ some s')
        × (bit_and s'.clksys.clk_ctrl cb.sclksel ≡ cb.sclksel_xosc)
        × (bit_and s'.tcc1.ctrla t1.clksel ≡ b.tc_clksel_div1)
        × (bit_and s'.tcc1.intctrla t1.ovfintlvl ≡ b.tc_ovfintlvl_lo)
        × (s'.period_c1 ≡ 16469)
        × (bit_and s'.tcd0.ctrla t0.clksel ≡ b.tc_clksel_div1)
        × (bit_and s'.tcd0.intctrla t0.ovfintlvl ≡ b.tc_ovfintlvl_med)
        × (s'.period_d0 ≡ 8234)
        × (s'.timers ≡ cleared)
        × (s'.calls
            ≡ s.calls
              ++ (ioport_init
                  ∷ sysclk_init
                  ∷ (spi_mem_init
                      ++ (module_calls b mb hw cb t0 t1
                          ++ (delay_us 10
                              ∷ power_switch_output
                              ∷ power_switch_high
                              ∷ network_calls)))))
  unfolding main spi_mem_init
  main_lem statuses flags s clock_laws hardware laws0 laws1 ready flagged =
      let (s', ends, clock, source1, level1, period1, source0, level0, period0, uptime, order) =
        board_init_lem statuses flags s clock_laws hardware laws0 laws1 ready flagged in
      (
        call network_calls s',
        rw (ends, main) refl,
        clock,
        source1,
        level1,
        period1,
        source0,
        level0,
        period0,
        uptime,
        ap (λ cs. cs ++ network_calls) order ∙ append_assoc s.calls _ network_calls,
      )
