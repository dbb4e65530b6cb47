-- ===== src/Adt/Silent.antt =====
-- A request of the temperature from MyDrivers/ADT7420.c when the sensor sends nothing.
use rtos_hm_board.Prelude.{
  ℕ, ◌*◌, ◌%◌, ◌^◌, ◌≡◌, ◌⊎◌, refl, ap, ◌∙◌, arith, true, false, List, [], ◌∷◌, bit_or, get_or, set,
  All,
}
use rtos_hm_board.TwiMaster.{
  TwiMaster, MasterBits, Registers, flag, interrupt, interrupts, write_read, error_handler,
  write_handler,
}
use rtos_hm_board.Adt.{Adt, adt_get_temperature, adt_i2c_address, adt_reg_temperature}

-- An interrupt that brings no byte: an error, one behind a written byte, such as a missing
-- acknowledgement, or one without a cause.
abbrev pub IsSilent : MasterBits → Registers → Type 0
IsSilent b r =
    (flag r.status b.arblost ≡ true)
    ⊎ (flag r.status b.buserr ≡ true)
    ⊎ (flag r.status b.wif ≡ true)
    ⊎ (flag r.status b.rif ≡ false)

module _ (b : MasterBits) where
  interrupt-silent :
      (r : Registers) (t : TwiMaster) → IsSilent b r → (interrupt b r t).read_data ≡ t.read_data
  unfolding interrupt error_handler write_handler
  interrupt-silent r t silent = ground arith

  interrupts-silent :
      (rs : List Registers) (t : TwiMaster)
      → All (IsSilent b) rs
      → (interrupts b rs t).read_data ≡ t.read_data
  unfolding interrupts
  interrupts-silent [] t silent = refl
  interrupts-silent (r ∷ rs) t (first, rest) =
      interrupts-silent rs (interrupt b r t) rest ∙ interrupt-silent r t first

  write_read-read_data :
      (address : ℕ) (bytes : List ℕ) (n m : ℕ) (t : TwiMaster)
      → (write_read address bytes n m t).0.read_data ≡ t.read_data
  unfolding write_read
  write_read-read_data address bytes n m t = ground arith

  -- If no interrupt during the delay brings a byte, because the sensor does not acknowledge, the bus
  -- has an error, the driver is busy or there is no interrupt at all: `ADT_get_temperature` returns
  -- the temperature of the two bytes that came in an earlier request, and keeps them.
  pub adt_get_temperature_stale :
      (rs : List Registers) (a : Adt)
      → All (IsSilent b) rs
      → let (temp, a') = adt_get_temperature b rs a in
        let old = a.master.read_data in
        (temp ≡ bit_or (get_or old 0 0 * 2 ^ 8 % 2 ^ 16) (get_or old 1 0))
        × (a'.master.read_data ≡ old)
  unfolding adt_get_temperature
  adt_get_temperature_stale rs a silent =
      let buffer = set a.buffer 0 adt_reg_temperature in
      let kept =
        interrupts-silent rs (write_read adt_i2c_address buffer 1 2 a.master).0 silent
        ∙ write_read-read_data adt_i2c_address buffer 1 2 a.master in
      (ap (λ d. bit_or (get_or d 0 0 * 2 ^ 8 % 2 ^ 16) (get_or d 1 0)) kept, kept)
