-- ===== src/TimerCounter.antt =====
-- MyDrivers/TC_driver.c: the control registers of a timer, and the masks of their fields.
pub mod Tc0
pub mod Tc1
pub mod Clocks
use rtos_hm_board.Prelude.{ℕ}

-- The registers that the driver writes. CTRLFSET holds the last command.
pub record TimerCounter : Type 0 where
  pub ctrla : ℕ
  pub ctrlb : ℕ
  pub ctrld : ℕ
  pub ctrlfset : ℕ
  pub intctrla : ℕ
  pub intctrlb : ℕ

-- The masks and codes that the compiler's device header gives for one type of timer; `channels` is
-- the union of the masks of its compare channels.
pub record TcBits : Type 0 where
  pub clksel : ℕ
  pub clksel_off : ℕ
  pub wgmode : ℕ
  pub evsel : ℕ
  pub evact : ℕ
  pub evact_capt : ℕ
  pub channels : ℕ
  pub ovfintlvl : ℕ
  pub errintlvl : ℕ
  pub ccaintlvl : ℕ
  pub ccbintlvl : ℕ
  pub cccintlvl : ℕ
  pub ccdintlvl : ℕ
  pub cmd_reset : ℕ
