-- ===== src/Tests/Overlong.antt =====
-- Transfers to the board that go wrong.
use rtos_hm_board.Prelude.{ℕ, zero, suc, ◌≡◌, refl, arith, List, [], ◌∷◌, ◌++◌, All, replicate, map}
use rtos_hm_board.Prelude.Slices.{put}
use rtos_hm_board.TwiSlave.{Registers, ok, buffer_overflow, interrupts, twis_status_ready}
use rtos_hm_board.TwiSlave.Receive.{IsByte}
use rtos_hm_board.CspInterface.{slave_process_data}
use rtos_hm_board.CspInterface.Overlong.{overlong_frame, interrupts-recover}
use rtos_hm_board.Tests.Slave.{
  bits, stack, slave, slave-IsValid, matched, seven, nine, ended, matched-IsMatch, seven-IsByte,
  nine-IsByte, ended-IsStop,
}

sevens-IsByte : (n : ℕ) → All (IsByte bits) (replicate n seven)
sevens-IsByte zero = tt
sevens-IsByte (suc n) = (seven-IsByte, sevens-IsByte n)

abbrev sevens : List Registers
sevens = replicate 72 seven

overlong_frame_example :
    let p = slave_process_data stack in
    let t1 = interrupts bits p (matched ∷ sevens ++ (nine ∷ [])) slave in
    let t2 = interrupts bits p (matched ∷ sevens ++ (nine ∷ ended ∷ [])) slave in
    (t1.result ≡ buffer_overflow)
    × (t1.env ≡ [])
    × (t2.result ≡ ok)
    × (t2.env
        ≡ []
          ++ (record stack {
            len = 72;
            bytes = put stack.bytes 0 (map (λ (q : Registers). q.received) sevens);
          }
              ∷ []))
overlong_frame_example =
    overlong_frame bits stack slave-IsValid refl matched sevens nine ended refl matched-IsMatch
      (sevens-IsByte 72) nine-IsByte ended-IsStop

-- A bus error in the middle of a transfer.
abbrev failed : List Registers
failed = matched ∷ seven ∷ record { status = 0x04; received = 0 } ∷ []

interrupts-recover_example :
    let p = slave_process_data stack in
    let t1 = interrupts bits p failed slave in
    let t2 = interrupts bits p (failed ++ (matched ∷ (nine ∷ []) ++ (ended ∷ []))) slave in
    (t2.env ≡ t1.env ++ (record stack { len = 1; bytes = put stack.bytes 0 (9 ∷ []) } ∷ []))
    × (t2.status ≡ twis_status_ready)
    × (t2.result ≡ ok)
interrupts-recover_example =
    interrupts-recover bits stack slave-IsValid refl failed matched (nine ∷ []) ended (omega arith)
      (omega arith) refl matched-IsMatch (nine-IsByte, tt) ended-IsStop
