-- ===== src/Sampling/Average.antt =====
-- `adca_read_ch0` and the running sum of system.c, as integers.
use rtos_hm_board.Prelude.{ℕ, ◌+◌, ◌^◌, ◌≤◌, ◌<◌, ◌≡◌, arith, ap, ◌∙◌}
use rtos_hm_board.Prelude.Signed.{ℤ, pos, ◌+ℤ◌, ◌≤ℤ◌, int16, shift_right16, pos_part, neg_part}
use rtos_hm_board.Sampling.{Readings, adca_read_ch0, add16}

-- Not farther from zero than `n`, on either side.
abbrev pub IsWithin : ℕ → ℤ → Type 0
IsWithin n z = (pos_part z ≤ n) × (neg_part z ≤ n)

pub +ℤ-IsWithin : (m n : ℕ) (a b : ℤ) → IsWithin m a → IsWithin n b → IsWithin (m + n) (a +ℤ b)
unfolding ◌+ℤ◌
+ℤ-IsWithin m n a b h k = ground arith

-- A result of a signed conversion to 12 bits, in a register of 16 bits.
abbrev pub IsReading : ℕ → Type 0
IsReading w = (w < 2 ^ 16) × IsWithin 2048 (int16 w)

pub record AreReadings (r : Readings) : Type 0 where
  pub first_in : IsReading r.first
  pub second_in : IsReading r.second
  pub third_in : IsReading r.third
  pub fourth_in : IsReading r.fourth

abbrev pub total : Readings → ℤ
total r = int16 r.first +ℤ int16 r.second +ℤ int16 r.third +ℤ int16 r.fourth

int16-add :
    (a b : ℕ)
    → a < 2 ^ 16
    → b < 2 ^ 16
    → IsWithin 32767 (int16 a +ℤ int16 b)
    → int16 (add16 a b) ≡ int16 a +ℤ int16 b
unfolding ◌+ℤ◌
int16-add a b ha hb h = ground arith

-- The sum of one more reading.
sum_step :
    (k s w : ℕ) (z : ℤ)
    → k + 2048 ≤ 32767
    → s < 2 ^ 16
    → int16 s ≡ z
    → IsWithin k z
    → IsReading w
    → (int16 (add16 s w) ≡ z +ℤ int16 w) × IsWithin (k + 2048) (z +ℤ int16 w)
sum_step k s w z room hs e h v =
    let inside = +ℤ-IsWithin k 2048 z (int16 w) h v.1 in
    (int16-add s w hs v.0 (rw e (omega (arith, inside))) ∙ ap (λ t. t +ℤ int16 w) e, inside)

abbrev sum_word : Readings → ℕ
sum_word r = add16 (add16 (add16 (add16 0 r.first) r.second) r.third) r.fourth

int16-sum_word : (r : Readings) → AreReadings r → int16 (sum_word r) ≡ total r
int16-sum_word r v =
    let s1 = add16 0 r.first in
    let s2 = add16 s1 r.second in
    let s3 = add16 s2 r.third in
    let e1 : s1 ≡ r.first = omega (arith, v.first_in.0) in
    let two =
      sum_step 2048 s1 r.second (int16 r.first) (omega arith) (omega arith) (ap int16 e1)
        v.first_in.1 v.second_in in
    let three = sum_step 4096 s2 r.third _ (omega arith) (omega arith) two.0 two.1 v.third_in in
    (sum_step 6144 s3 r.fourth _ (omega arith) (omega arith) three.0 three.1 v.fourth_in).0

-- An arithmetic shift by 2 rounds down.
shift-floor :
    (w : ℕ)
    → w < 2 ^ 16
    → let q = int16 (shift_right16 w 2) in
      (q +ℤ q +ℤ q +ℤ q ≤ℤ int16 w) × (int16 w ≤ℤ q +ℤ q +ℤ q +ℤ q +ℤ pos 3)
unfolding ◌+ℤ◌
shift-floor w h = ground arith

-- For results of the converter, `adca_read_ch0` returns the average of the four, rounded down:
-- four times the integer that it stands for is at most their sum, and more than their sum less 4.
pub adca_read_ch0-IsFloor :
    (r : Readings)
    → AreReadings r
    → let q = int16 (adca_read_ch0 r) in
      (q +ℤ q +ℤ q +ℤ q ≤ℤ total r) × (total r ≤ℤ q +ℤ q +ℤ q +ℤ q +ℤ pos 3)
unfolding adca_read_ch0
adca_read_ch0-IsFloor r v = rw (← int16-sum_word r v) (shift-floor (sum_word r) (omega arith))
