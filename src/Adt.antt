-- ===== src/Adt.antt =====
-- MyDrivers/ADT7420.c: the temperature sensor behind the second TWI master.
pub mod Request
pub mod Silent
use rtos_hm_board.Config.{adt_i2c_baudsetting}
use rtos_hm_board.Prelude.{ℕ, ◌+◌, ◌*◌, ◌%◌, ◌^◌, List, set, get_or, bit_or}
use rtos_hm_board.TwiMaster.{TwiMaster, MasterBits, Registers, master_init, write_read, interrupts}

-- `twi_adt_master` and `adt_write_buffer`, eight bytes.
pub record Adt : Type 0 where
  pub master : TwiMaster
  pub buffer : List ℕ

abbrev pub adt_reg_temperature : ℕ
adt_reg_temperature = 0

abbrev pub adt_reg_configuration : ℕ
adt_reg_configuration = 3

abbrev pub adt_i2c_address : ℕ
adt_i2c_address = 0x48

module _ (b : MasterBits) where
  -- `ADT_init`. The parameter is the interrupt level of the device header.
  unfoldable pub adt_init : ℕ → Adt → Adt
  adt_init int_level a =
      let buffer = set (set a.buffer 0 adt_reg_configuration) 1 0xc0 in
      record {
        master =
            (write_read adt_i2c_address buffer 2 0
              (master_init b int_level adt_i2c_baudsetting a.master)).0;
        buffer = buffer;
      }

  -- `ADT_get_temperature`, with the interrupts that come during the delay of 250 ms.
  unfoldable pub adt_get_temperature : List Registers → Adt → ℕ × Adt
  adt_get_temperature rs a =
      let buffer = set a.buffer 0 adt_reg_temperature in
      let master = interrupts b rs (write_read adt_i2c_address buffer 1 2 a.master).0 in
      (
        bit_or (get_or master.read_data 0 0 * 2 ^ 8 % 2 ^ 16) (get_or master.read_data 1 0),
        record { master = master; buffer = buffer },
      )
