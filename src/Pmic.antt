-- ===== src/Pmic.antt =====
-- MyDrivers/pmic_driver.c: where the interrupt vectors are.
use rtos_hm_board.Prelude.{ℕ, bit_and, bit_or}
use rtos_hm_board.Prelude.Fields.{complement}

-- PMIC.CTRL, and the signature in CCP that a change of it needs.
pub record Pmic : Type 0 where
  pub ctrl : ℕ
  pub ccp : ℕ

-- `ivsel` and `ioreg` are the compiler's PMIC_IVSEL_bm and CCP_IOREG_gc.
module _ (ivsel ioreg : ℕ) where
  -- `PMIC_SetVectorLocationToBoot`
  unfoldable pub set_vector_location_to_boot : Pmic → Pmic
  set_vector_location_to_boot p =
      let temp = bit_or p.ctrl ivsel in record p { ccp = ioreg; ctrl = temp }

  -- `PMIC_SetVectorLocationToApplication`
  unfoldable pub set_vector_location_to_application : Pmic → Pmic
  set_vector_location_to_application p =
      let temp = bit_and p.ctrl (complement 8 ivsel) in record p { ccp = ioreg; ctrl = temp }
