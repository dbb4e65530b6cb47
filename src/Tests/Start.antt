-- ===== src/Tests/Start.antt =====
-- The clock system on hardware that takes every write.
use rtos_hm_board.Prelude.{◌≡◌, refl, arith, [], ◌∷◌, bit_and, inl, inr, some}
use rtos_hm_board.Prelude.Fields.{complement}
use rtos_hm_board.Clksys.{Clksys, ClksysHardware, ClksysBits, enable_xtal}
use rtos_hm_board.Clksys.Start.{ClksysBitsLaws, HardwareLaws, enable_xtal_lem}

abbrev pub hardware : ClksysHardware
hardware = record { write_osc_ctrl = λ c v. v; write_clk_ctrl = λ c v. v }

abbrev pub bits : ClksysBits
bits = record {
  x32klpm = 32;
  pllfac = 31;
  pllfac_gp = 0;
  sclksel = 7;
  rtcsrc = 14;
  rtcen = 1;
  rc2mcref = 1;
  rc32mcref0 = 2;
  dfll_enable = 1;
  xoscfdif = 2;
  xoscfden = 1;
  lock = 1;
  medlvlen = 2;
  frqrange_12to16 = 192;
  xoscsel_xtal_1kclk = 11;
  xoscen = 8;
  xoscrdy = 8;
  sclksel_xosc = 3;
  rc2men = 1;
}

pub bits_laws : ClksysBitsLaws bits
bits_laws = record {
  xoscen_in = omega arith;
  rc2men_in = omega arith;
  sclksel_in = omega arith;
  apart = refl;
  within = refl;
}

pub hardware_laws : HardwareLaws hardware bits
hardware_laws = record {
  sets_flags = λ c m. refl;
  takes_source = λ c v chosen on ready. refl;
  stops_others = λ c v source on. refl;
}

-- After a reset the oscillator of 2 MHz runs.
abbrev pub reset : Clksys
reset = record {
  osc_ctrl = 1;
  osc_status = 1;
  xoscctrl = 0;
  pllctrl = 0;
  dfllctrl = 0;
  xoscfail = 0;
  clk_ctrl = 0;
  psctrl = 0;
  rtcctrl = 0;
  clk_lock = 0;
  dfllrc2m_ctrl = 0;
  dfllrc32m_ctrl = 0;
  pmic_ctrl = 0;
}

enable_xtal_lem_example :
    (c' : Clksys) × (enable_xtal hardware bits (1 ∷ 1 ∷ 9 ∷ []) reset ≡ some c')
    × (bit_and c'.clk_ctrl 7 ≡ 3)
    × (bit_and c'.clk_ctrl (complement 8 7) ≡ bit_and 0 (complement 8 7))
    × (bit_and c'.osc_ctrl 8 ≡ 8)
    × (bit_and c'.osc_ctrl 1 ≡ 0)
enable_xtal_lem_example =
    enable_xtal_lem hardware bits (1 ∷ 1 ∷ 9 ∷ []) reset bits_laws hardware_laws
      (inr (inr (inl (λ e. omega arith))))
