-- ===== src/Port.antt =====
-- MyDrivers/port_driver.c and the macros of port_driver.h that the program uses: the registers of
-- an input and output port.
use rtos_hm_board.Prelude.{ℕ, ◌==◌, if◌then◌else◌, bit_and, bit_or, List, [], ◌∷◌, ◌++◌}
use rtos_hm_board.Prelude.Fields.{set_field, complement}

-- The masks and codes of the compiler's device header.
pub record PortBits : Type 0 where
  pub int0lvl : ℕ
  pub int1lvl : ℕ
  pub srlen : ℕ
  pub inven : ℕ
  pub opc_pullup : ℕ
  pub isc_bothedges : ℕ
  pub pin2 : ℕ
  pub pin3 : ℕ

-- `pins` are the masks in PORTCFG.MPCMASK with the value that was then written to PIN0CTRL, which
-- the hardware gives to each pin of the mask.
pub record Port : Type 0 where
  pub dir : ℕ
  pub intctrl : ℕ
  pub int0mask : ℕ
  pub int1mask : ℕ
  pub pins : List (ℕ × ℕ)

-- Writing to DIRSET and to DIRCLR.
unfoldable pub set_output : ℕ → Port → Port
set_output mask p = record p { dir = bit_or p.dir mask }

unfoldable pub set_input : ℕ → Port → Port
set_input mask p = record p { dir = bit_and p.dir (complement 8 mask) }

module _ (b : PortBits) where
  -- `PORT_ConfigureInterrupt0`
  unfoldable pub configure_interrupt0 : ℕ → ℕ → Port → Port
  configure_interrupt0 level mask p = record p {
    intctrl = set_field 8 p.intctrl b.int0lvl level;
    int0mask = mask;
  }

  -- `PORT_ConfigureInterrupt1`
  unfoldable pub configure_interrupt1 : ℕ → ℕ → Port → Port
  configure_interrupt1 level mask p = record p {
    intctrl = set_field 8 p.intctrl b.int1lvl level;
    int1mask = mask;
  }

  -- `PORT_ConfigurePins`. Saving and restoring SREG leaves the interrupts as they were.
  unfoldable pub configure_pins : ℕ → ℕ → ℕ → ℕ → ℕ → Port → Port
  configure_pins mask slew invert opc isc p =
      let slew_bit = if slew == 0 then 0 else b.srlen in
      let invert_bit = if invert == 0 then 0 else b.inven in
      let temp = bit_or (bit_or (bit_or opc isc) slew_bit) invert_bit in
      record p { pins = p.pins ++ ((mask, temp) ∷ []) }
