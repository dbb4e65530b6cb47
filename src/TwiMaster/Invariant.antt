-- ===== src/TwiMaster/Invariant.antt =====
-- The representation invariant of `TWI_Master_t`.
use rtos_hm_board.Prelude.{
  ℕ, zero, suc, ◌+◌, ◌%◌, ◌^◌, ◌≤◌, ◌<◌, ◌≡◌, refl, arith, List, [], ◌∷◌, length, set, get_or,
  length-set, ◌∙◌,
}
use rtos_hm_board.TwiMaster.{
  TwiMaster, Registers, MasterBits, copy, write_read, error_handler, write_handler, read_handler,
  interrupt, interrupts,
}

-- The buffers have their declared sizes, and no counter passes the end of its buffer; the write
-- counter does not pass the length of the transaction either.
pub record IsValid (t : TwiMaster) : Type 0 where
  pub write_size : length t.write_data ≡ 255
  pub read_size : length t.read_data ≡ 20
  pub to_write_in : t.bytes_to_write ≤ 255
  pub to_read_in : t.bytes_to_read ≤ 20
  pub written_in : t.bytes_written ≤ t.bytes_to_write
  pub read_in : t.bytes_read ≤ 20
  pub address_in : t.address < 256

pub length-copy : (n i : ℕ) (from to : List ℕ) → length (copy n i from to) ≡ length to
unfolding copy
length-copy zero i from to = refl
length-copy (suc n) i from to =
    length-copy n ((i + 1) % 2 ^ 8) from (set to i (get_or from i 0))
    ∙ length-set to i (get_or from i 0)

-- `TWI_MasterWriteRead` keeps the invariant of the master, the sizes of its buffers and the ranges
-- of its counters, whatever it is called with.
pub write_read-IsValid :
    (address : ℕ) (bytes : List ℕ) (to_write to_read : ℕ) {t : TwiMaster}
    → IsValid t
    → IsValid (write_read address bytes to_write to_read t).0
unfolding write_read
write_read-IsValid address bytes to_write to_read {t} v =
    ground (arith, length-copy to_write 0 bytes t.write_data)

module _ (b : MasterBits) (r : Registers) {t : TwiMaster} (v : IsValid t) where
  error_handler-IsValid : IsValid (error_handler b r t)
  unfolding error_handler
  error_handler-IsValid = ground arith

  write_handler-IsValid : IsValid (write_handler b r t)
  unfolding write_handler
  write_handler-IsValid = ground arith

  read_handler-IsValid : IsValid (read_handler b r t)
  unfolding read_handler
  read_handler-IsValid = ground (arith, length-set t.read_data t.bytes_read r.received)

  -- Whatever the status register says, an interrupt keeps the invariant.
  pub interrupt-IsValid : IsValid (interrupt b r t)
  unfolding interrupt
  interrupt-IsValid =
      ground (arith, error_handler-IsValid, write_handler-IsValid, read_handler-IsValid)

-- Whatever the registers hold at each of them, a sequence of interrupts of the master keeps its
-- invariant: no counter passes the end of its buffer.
pub interrupts-IsValid :
    (b : MasterBits) (rs : List Registers) {t : TwiMaster} → IsValid t → IsValid (interrupts b rs t)
unfolding interrupts
interrupts-IsValid b [] v = v
interrupts-IsValid b (r ∷ rs) v = interrupts-IsValid b rs (interrupt-IsValid b r v)
