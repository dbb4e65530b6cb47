-- ===== src/Clksys/Start.antt =====
-- `enable_xtal` of system.c on hardware that follows its documentation.
use rtos_hm_board.Prelude.{
  ℕ, ◌^◌, ◌<◌, ◌≡◌, ◌≢◌, ◌⊎◌, inl, inr, refl, ap, ◌∙◌, arith, ◌==◌, if◌then◌else◌, bit_and, bit_or,
  List, [], ◌∷◌, some, ℕ_discrete, true, false,
}
use rtos_hm_board.Prelude.Fields.{complement, set_field, bit_and-set_field, set_field-keeps}
use rtos_hm_board.Prelude.Flags.{bit_and-bit_or, bit_and-complement}
use rtos_hm_board.Clksys.{
  Clksys, ClksysHardware, ClksysBits, enable, xosc_config, disable, main_clock_source_select,
  wait_ready, switch_clock, enable_xtal,
}

-- The flags of two oscillators are apart, and the code of a clock source lies within its field.
pub record ClksysBitsLaws (b : ClksysBits) : Type 0 where
  pub xoscen_in : b.xoscen < 2 ^ 8
  pub rc2men_in : b.rc2men < 2 ^ 8
  pub sclksel_in : b.sclksel < 2 ^ 8
  pub apart : bit_and b.xoscen b.rc2men ≡ 0
  pub within : bit_and b.sclksel_xosc b.sclksel ≡ b.sclksel_xosc

-- The documentation of the clock system: setting more flags in OSC.CTRL always takes effect;
-- CLK.CTRL takes the external oscillator as the source when that is on and its flag in OSC.STATUS
-- says that it is ready; and with that source OSC.CTRL takes any value that leaves it on.
pub record HardwareLaws (hw : ClksysHardware) (b : ClksysBits) : Type 0 where
  pub sets_flags :
      (c : Clksys) (m : ℕ) → hw.write_osc_ctrl c (bit_or c.osc_ctrl m) ≡ bit_or c.osc_ctrl m
  pub takes_source :
      (c : Clksys) (v : ℕ)
      → bit_and v b.sclksel ≡ b.sclksel_xosc
      → bit_and c.osc_ctrl b.xoscen ≡ b.xoscen
      → bit_and c.osc_status b.xoscrdy ≢ 0
      → hw.write_clk_ctrl c v ≡ v
  pub stops_others :
      (c : Clksys) (v : ℕ)
      → bit_and c.clk_ctrl b.sclksel ≡ b.sclksel_xosc
      → bit_and v b.xoscen ≡ b.xoscen
      → hw.write_osc_ctrl c v ≡ v

-- One of the values has the flag of the external oscillator.
abbrev pub BecomesReady : ClksysBits → List ℕ → Type 0
BecomesReady b [] = ⊥
BecomesReady b (status ∷ rest) = (bit_and status b.xoscrdy ≢ 0) ⊎ BecomesReady b rest

module _ (hw : ClksysHardware) (b : ClksysBits) where
  abbrev seen : ℕ → Clksys → Clksys
  seen status c = record c { osc_status = status }

  wait_now :
      (status : ℕ) (rest : List ℕ) (c : Clksys)
      → bit_and status b.xoscrdy ≢ 0
      → wait_ready hw b (status ∷ rest) c ≡ some (seen status c)
  unfolding wait_ready
  wait_now status rest c on =
      let test : (bit_and status b.xoscrdy == 0) ≡ false = ground arith in
      ap (λ t. if t then wait_ready hw b rest (seen status c) else some (seen status c)) test

  -- The loop ends with the flag in OSC.STATUS, and with nothing else changed.
  wait_ready_lem :
      (statuses : List ℕ) (c : Clksys)
      → BecomesReady b statuses
      → (status : ℕ) × (wait_ready hw b statuses c ≡ some (record c { osc_status = status }))
        × (bit_and status b.xoscrdy ≢ 0)
  unfolding wait_ready
  wait_ready_lem [] c ready = absurd ready
  wait_ready_lem (status ∷ rest) c (inl on) = (status, wait_now status rest c on, on)
  wait_ready_lem (status ∷ rest) c (inr later) = elim (ℕ_discrete (bit_and status b.xoscrdy) 0) [
    | yes off ↦
        let test : (bit_and status b.xoscrdy == 0) ≡ true = ground arith in
        let (last, waited, on) = wait_ready_lem rest (seen status c) later in
        (
          last,
          ap (λ t. if t then wait_ready hw b rest (seen status c) else some (seen status c)) test
              ∙ waited,
          on,
        )
    | no on ↦ (status, wait_now status rest c on, on)
  ]

  -- With the laws of the device header and hardware that follows its documentation: if
  -- the external oscillator gets ready, `enable_xtal` ends, and then the system clock comes from
  -- that oscillator with the rest of CLK.CTRL unchanged, the oscillator is on, and the internal one
  -- of 2 MHz is off.
  pub enable_xtal_lem :
      (statuses : List ℕ) (c : Clksys)
      → ClksysBitsLaws b
      → HardwareLaws hw b
      → BecomesReady b statuses
      → (c' : Clksys) × (enable_xtal hw b statuses c ≡ some c')
        × (bit_and c'.clk_ctrl b.sclksel ≡ b.sclksel_xosc)
        × (bit_and c'.clk_ctrl (complement 8 b.sclksel)
            ≡ bit_and c.clk_ctrl (complement 8 b.sclksel))
        × (bit_and c'.osc_ctrl b.xoscen ≡ b.xoscen)
        × (bit_and c'.osc_ctrl b.rc2men ≡ 0)
  unfolding enable_xtal enable xosc_config disable main_clock_source_select
  enable_xtal_lem statuses c laws hardware ready =
      let c1 = record c { pmic_ctrl = bit_or c.pmic_ctrl b.medlvlen } in
      let configured = xosc_config hw b b.frqrange_12to16 false b.xoscsel_xtal_1kclk c1 in
      let c2 = enable hw b b.xoscen configured in
      let (status, waited, on) = wait_ready_lem statuses c2 ready in
      let c3 = record c2 { osc_status = status } in
      let running : c3.osc_ctrl ≡ bit_or c.osc_ctrl b.xoscen =
        hardware.sets_flags configured b.xoscen in
      let flag : bit_and c3.osc_ctrl b.xoscen ≡ b.xoscen =
        ap (λ t. bit_and t b.xoscen) running
        ∙ bit_and-bit_or 8 c.osc_ctrl b.xoscen laws.xoscen_in in
      let source = set_field 8 c.clk_ctrl b.sclksel b.sclksel_xosc in
      let chosen =
        bit_and-set_field 8 c.clk_ctrl b.sclksel b.sclksel_xosc laws.sclksel_in laws.within in
      let selected : hw.write_clk_ctrl c3 source ≡ source =
        hardware.takes_source c3 source chosen flag on in
      let c4 = (main_clock_source_select hw b b.sclksel_xosc c3).0 in
      let (kept, gone) =
        bit_and-complement 8 c3.osc_ctrl b.rc2men b.xoscen laws.rc2men_in laws.xoscen_in laws.apart
          flag in
      let current : bit_and c4.clk_ctrl b.sclksel ≡ b.sclksel_xosc =
        ap (λ t. bit_and t b.sclksel) selected ∙ chosen in
      let stopped =
        hardware.stops_others c4 (bit_and c3.osc_ctrl (complement 8 b.rc2men)) current kept in
      (
        switch_clock hw b c3,
        rw (waited, enable_xtal) refl,
        current,
        ap (λ t. bit_and t (complement 8 b.sclksel)) selected
            ∙ set_field-keeps 8 c.clk_ctrl b.sclksel b.sclksel_xosc laws.sclksel_in laws.within,
        ap (λ t. bit_and t b.xoscen) stopped ∙ kept,
        ap (λ t. bit_and t b.rc2men) stopped ∙ gone,
      )
