-- ===== src/TwiMaster/Slices.antt =====
-- The part of the write buffer that the filling loop of the TWI master sets.
use rtos_hm_board.Prelude.{
  ℕ, zero, suc, ◌+◌, ◌≤◌, ◌<◌, ◌≡◌, refl, arith, List, length, set, get_or, ap, ◌∙◌, sym,
}
use rtos_hm_board.Prelude.Slices.{slice, put, slice-put, length-slice}
use rtos_hm_board.TwiMaster.{copy}

-- The filling loop stores a slice of its source.
pub copy-eq-put :
    (n i : ℕ) (from to : List ℕ) → i + n < 256 → copy n i from to ≡ put to i (slice from i n)
unfolding copy put slice
copy-eq-put zero i from to h = refl
copy-eq-put (suc n) i from to h =
    ap (λ k. copy n k from (set to i (get_or from i 0))) (omega arith)
    ∙ copy-eq-put n (i + 1) from (set to i (get_or from i 0)) (omega arith)

-- After the loop, the front of the buffer is the front of the source.
pub slice-copy :
    (n : ℕ) (from to : List ℕ)
    → n < 256
    → n ≤ length to
    → slice (copy n 0 from to) 0 n ≡ slice from 0 n
slice-copy n from to small room =
    ap (λ t. slice t 0 n) (copy-eq-put n 0 from to (omega arith))
    ∙ ap (slice (put to 0 (slice from 0 n)) 0) (sym (length-slice from 0 n))
    ∙ slice-put to 0 (slice from 0 n) (omega (arith, length-slice from 0 n))
