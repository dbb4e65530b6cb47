-- ===== src/Clksys.antt =====
-- MyDrivers/clksys_driver.c with the macros of clksys_driver.h, and the start of the external
-- oscillator in system.c.
pub mod Start
use rtos_hm_board.Prelude.{
  ℕ, ◌+◌, ◌*◌, ◌%◌, ◌^◌, ◌==◌, if◌then◌else◌, bit_and, bit_or, Bool, true, false, List, [], ◌∷◌,
  Option, none, some,
}
use rtos_hm_board.Prelude.Fields.{complement, set_field}

-- The registers of OSC and CLK that the code uses, CTRL of the two calibration units, and CTRL of
-- the interrupt controller. The hardware sets `osc_status`.
pub record Clksys : Type 0 where
  pub osc_ctrl : ℕ
  pub osc_status : ℕ
  pub xoscctrl : ℕ
  pub pllctrl : ℕ
  pub dfllctrl : ℕ
  pub xoscfail : ℕ
  pub clk_ctrl : ℕ
  pub psctrl : ℕ
  pub rtcctrl : ℕ
  pub clk_lock : ℕ
  pub dfllrc2m_ctrl : ℕ
  pub dfllrc32m_ctrl : ℕ
  pub pmic_ctrl : ℕ

-- What OSC.CTRL and CLK.CTRL hold after a write: the hardware may disregard it.
pub record ClksysHardware : Type 0 where
  pub write_osc_ctrl : Clksys → ℕ → ℕ
  pub write_clk_ctrl : Clksys → ℕ → ℕ

-- The masks and codes of the compiler's device header; `pllfac_gp` is a position.
pub record ClksysBits : Type 0 where
  pub x32klpm : ℕ
  pub pllfac : ℕ
  pub pllfac_gp : ℕ
  pub sclksel : ℕ
  pub rtcsrc : ℕ
  pub rtcen : ℕ
  pub rc2mcref : ℕ
  pub rc32mcref0 : ℕ
  pub dfll_enable : ℕ
  pub xoscfdif : ℕ
  pub xoscfden : ℕ
  pub lock : ℕ
  pub medlvlen : ℕ
  pub frqrange_12to16 : ℕ
  pub xoscsel_xtal_1kclk : ℕ
  pub xoscen : ℕ
  pub xoscrdy : ℕ
  pub sclksel_xosc : ℕ
  pub rc2men : ℕ

module _ (hw : ClksysHardware) (b : ClksysBits) where
  -- `CLKSYS_Enable`
  unfoldable pub enable : ℕ → Clksys → Clksys
  enable osc_sel c = record c { osc_ctrl = hw.write_osc_ctrl c (bit_or c.osc_ctrl osc_sel) }

  -- `CLKSYS_XOSC_Config`
  unfoldable pub xosc_config : ℕ → Bool → ℕ → Clksys → Clksys
  xosc_config freq_range low_power_32khz mode c =
      let low_power : ℕ = if low_power_32khz then b.x32klpm else 0 in
      record c { xoscctrl = bit_or (bit_or freq_range low_power) mode }

  -- `CLKSYS_PLL_Config`
  unfoldable pub pll_config : ℕ → ℕ → Clksys → Clksys
  pll_config source factor c = record c {
    pllctrl = bit_or source (bit_and factor b.pllfac * 2 ^ b.pllfac_gp) % 2 ^ 8;
  }

  -- `CLKSYS_Disable`, with what it returns.
  unfoldable pub disable : ℕ → Clksys → Clksys × ℕ
  disable osc_sel c =
      let ctrl = hw.write_osc_ctrl c (bit_and c.osc_ctrl (complement 8 osc_sel)) in
      (record c { osc_ctrl = ctrl }, bit_and ctrl osc_sel)

  -- `CLKSYS_Prescalers_Config`
  unfoldable pub prescalers_config : ℕ → ℕ → Clksys → Clksys
  prescalers_config psa_factor psbc_factor c = record c { psctrl = bit_or psa_factor psbc_factor }

  -- `CLKSYS_Main_ClockSource_Select`, with what it returns.
  unfoldable pub main_clock_source_select : ℕ → Clksys → Clksys × ℕ
  main_clock_source_select source c =
      let ctrl = hw.write_clk_ctrl c (set_field 8 c.clk_ctrl b.sclksel source) in
      (record c { clk_ctrl = ctrl }, bit_and ctrl source)

  -- `CLKSYS_RTC_ClockSource_Enable`
  unfoldable pub rtc_clock_source_enable : ℕ → Clksys → Clksys
  rtc_clock_source_enable source c = record c {
    rtcctrl = bit_or (set_field 8 c.rtcctrl b.rtcsrc source) b.rtcen;
  }

  -- `CLKSYS_AutoCalibration_Enable`
  unfoldable pub auto_calibration_enable : ℕ → Bool → Clksys → Clksys
  auto_calibration_enable source ext_reference c =
      let reference : ℕ = if ext_reference then source else 0 in
      let c' = record c { dfllctrl = set_field 8 c.dfllctrl source reference } in
      if source == b.rc2mcref
      then record c' { dfllrc2m_ctrl = bit_or c'.dfllrc2m_ctrl b.dfll_enable }
      else (if source == b.rc32mcref0
          then record c' { dfllrc32m_ctrl = bit_or c'.dfllrc32m_ctrl b.dfll_enable }
          else c')

  -- `CLKSYS_XOSC_FailureDetection_Enable`
  unfoldable pub xosc_failure_detection_enable : Clksys → Clksys
  xosc_failure_detection_enable c = record c { xoscfail = bit_or b.xoscfdif b.xoscfden }

  -- `CLKSYS_Configuration_Lock`
  unfoldable pub configuration_lock : Clksys → Clksys
  configuration_lock c = record c { clk_lock = b.lock }

  -- The loop of `enable_xtal` on the values that OSC.STATUS takes. If there are no more, it waits
  -- forever, which is `none`.
  unfoldable pub wait_ready : List ℕ → Clksys → Option Clksys
  wait_ready [] c = none
  wait_ready (status ∷ rest) c =
      let c' = record c { osc_status = status } in
      let later = wait_ready rest c' in if bit_and status b.xoscrdy == 0 then later else some c'

  -- The rest of `enable_xtal`.
  abbrev pub switch_clock : Clksys → Clksys
  switch_clock c = (disable b.rc2men (main_clock_source_select b.sclksel_xosc c).0).0

  -- `enable_xtal`
  unfoldable pub enable_xtal : List ℕ → Clksys → Option Clksys
  enable_xtal statuses c =
      let c1 = record c { pmic_ctrl = bit_or c.pmic_ctrl b.medlvlen } in
      let c2 = enable b.xoscen (xosc_config b.frqrange_12to16 false b.xoscsel_xtal_1kclk c1) in
      elim (wait_ready statuses c2) [ none ↦ none | some ready ↦ some (switch_clock ready) ]
