-- ===== src/Tests/Boot.antt =====
-- `main` on hardware that gets ready.
use rtos_hm_board.Prelude.{◌≡◌, refl, arith, [], ◌∷◌, ◌++◌, bit_and, inl, inr, some}
use rtos_hm_board.Clock.{cleared}
use rtos_hm_board.TimerCounter.{TimerCounter}
use rtos_hm_board.Boot.{
  BootBits, Peripherals, main, network_calls, ioport_init, sysclk_init, spi_mem_init, module_calls,
  delay_us, power_switch_output, power_switch_high,
}
use rtos_hm_board.Boot.Ends.{TimerLaws, main_lem}
use rtos_hm_board.Tests.Board.{tc_bits, adt}
use rtos_hm_board.Tests.Master
use rtos_hm_board.Tests.Start
use rtos_hm_board.Tests.Start.{hardware, bits_laws, hardware_laws, reset}

abbrev codes : BootBits
codes = record {
  adc_conmode = 16;
  adc_resolution_12bit = 0;
  adc_prescaler_div128 = 5;
  adc_ch_inputmode_diff = 2;
  adc_ch_muxpos_pin1 = 8;
  adc_ch_muxneg_pin0 = 0;
  adc_ch_start = 128;
  adc_ch_chif = 1;
  tc_clksel_div1 = 1;
  tc_ovfintlvl_lo = 1;
  tc_ovfintlvl_med = 2;
  twi_master_intlvl_lo = 64;
}

abbrev timer : TimerCounter
timer = record { ctrla = 0; ctrlb = 0; ctrld = 0; ctrlfset = 0; intctrla = 0; intctrlb = 0 }

-- After a reset.
abbrev peripherals : Peripherals
peripherals = record {
  clksys = reset;
  adc = record {
    porta_dir = 0;
    ctrla = 0;
    ctrlb = 0;
    refctrl = 0;
    prescaler = 0;
    evctrl = 0;
    ch0_ctrl = 0;
    ch0_muxctrl = 0;
    ch0_intflags = 0;
  };
  adt = adt;
  tcc1 = timer;
  tcd0 = timer;
  period_c1 = 0;
  period_d0 = 0;
  timers = cleared;
  calls = [];
}

low_laws : TimerLaws tc_bits 1 1
low_laws = record {
  clksel_in = omega arith;
  ovfintlvl_in = omega arith;
  source_within = refl;
  level_within = refl;
}

medium_laws : TimerLaws tc_bits 1 2
medium_laws = record {
  clksel_in = omega arith;
  ovfintlvl_in = omega arith;
  source_within = refl;
  level_within = refl;
}

main_lem_example :
    (s' : Peripherals) × (main codes Master.bits hardware Start.bits tc_bits tc_bits
        (1 ∷ 9 ∷ [])
        (0 ∷ 1 ∷ [])
        peripherals
      ≡ some s')
    × (bit_and s'.clksys.clk_ctrl 7 ≡ 3)
    × (bit_and s'.tcc1.ctrla tc_bits.clksel ≡ 1)
    × (bit_and s'.tcc1.intctrla tc_bits.ovfintlvl ≡ 1)
    × (s'.period_c1 ≡ 16469)
    × (bit_and s'.tcd0.ctrla tc_bits.clksel ≡ 1)
    × (bit_and s'.tcd0.intctrla tc_bits.ovfintlvl ≡ 2)
    × (s'.period_d0 ≡ 8234)
    × (s'.timers ≡ cleared)
    × (s'.calls
        ≡ []
          ++ (ioport_init
              ∷ sysclk_init
              ∷ (spi_mem_init
                  ++ (module_calls codes Master.bits hardware Start.bits tc_bits tc_bits
                      ++ (delay_us 10 ∷ power_switch_output ∷ power_switch_high ∷ network_calls)))))
main_lem_example =
    main_lem codes Master.bits hardware Start.bits tc_bits tc_bits (1 ∷ 9 ∷ []) (0 ∷ 1 ∷ [])
      peripherals bits_laws hardware_laws medium_laws low_laws (inr (inl (λ e. omega arith)))
      (inr (inl (λ e. omega arith)))
