-- ===== src/TimerCounter/Tc0.antt =====
-- MyDrivers/TC_driver.c: the registers of the XMEGA's timers of type 0.
use rtos_hm_board.Prelude.{ℕ, bit_and, bit_or}
use rtos_hm_board.Prelude.Fields.{complement, set_field}
use rtos_hm_board.TimerCounter.{TimerCounter, TcBits}

module _ (b : TcBits) where
  -- `TC0_ConfigClockSource`
  unfoldable pub config_clock_source : ℕ → TimerCounter → TimerCounter
  config_clock_source selection t = record t { ctrla = set_field 8 t.ctrla b.clksel selection }

  -- `TC0_ConfigWGM`
  unfoldable pub config_wgm : ℕ → TimerCounter → TimerCounter
  config_wgm wgm t = record t { ctrlb = set_field 8 t.ctrlb b.wgmode wgm }

  -- `TC0_ConfigInputCapture`
  unfoldable pub config_input_capture : ℕ → TimerCounter → TimerCounter
  config_input_capture event_source t = record t {
    ctrld = bit_or (set_field 8 t.ctrld (bit_or b.evsel b.evact) event_source) b.evact_capt;
  }

  -- `TC0_EnableCCChannels`
  unfoldable pub enable_cc_channels : ℕ → TimerCounter → TimerCounter
  enable_cc_channels enable_mask t = record t {
    ctrlb = bit_or t.ctrlb (bit_and enable_mask b.channels);
  }

  -- `TC0_DisableCCChannels`
  unfoldable pub disable_cc_channels : ℕ → TimerCounter → TimerCounter
  disable_cc_channels disable_mask t = record t {
    ctrlb = bit_and t.ctrlb (complement 8 (bit_and disable_mask b.channels));
  }

  -- `TC0_SetOverflowIntLevel`
  unfoldable pub set_overflow_int_level : ℕ → TimerCounter → TimerCounter
  set_overflow_int_level level t = record t { intctrla = set_field 8 t.intctrla b.ovfintlvl level }

  -- `TC0_SetErrorIntLevel`
  unfoldable pub set_error_int_level : ℕ → TimerCounter → TimerCounter
  set_error_int_level level t = record t { intctrla = set_field 8 t.intctrla b.errintlvl level }

  -- `TC0_SetCCAIntLevel`
  unfoldable pub set_cca_int_level : ℕ → TimerCounter → TimerCounter
  set_cca_int_level level t = record t { intctrlb = set_field 8 t.intctrlb b.ccaintlvl level }

  -- `TC0_SetCCBIntLevel`
  unfoldable pub set_ccb_int_level : ℕ → TimerCounter → TimerCounter
  set_ccb_int_level level t = record t { intctrlb = set_field 8 t.intctrlb b.ccbintlvl level }

  -- `TC0_SetCCCIntLevel`
  unfoldable pub set_ccc_int_level : ℕ → TimerCounter → TimerCounter
  set_ccc_int_level level t = record t { intctrlb = set_field 8 t.intctrlb b.cccintlvl level }

  -- `TC0_SetCCDIntLevel`
  unfoldable pub set_ccd_int_level : ℕ → TimerCounter → TimerCounter
  set_ccd_int_level level t = record t { intctrlb = set_field 8 t.intctrlb b.ccdintlvl level }

  -- `TC0_Reset`
  unfoldable pub reset : TimerCounter → TimerCounter
  reset t = record t { ctrla = set_field 8 t.ctrla b.clksel b.clksel_off; ctrlfset = b.cmd_reset }
