-- ===== src/Fft/Angles.antt =====
-- The table `sincos` of fft_memory.c against the addition of angles.
use rtos_hm_board.Prelude.{
  ℕ, ◌+◌, ◌*◌, ◌^◌, ◌<◌, ◌≡◌, refl, arith, ltb, ltb→lt, Bool, true, ◌&&◌, ◌++◌, get_or, passes,
  passes_below,
}
use rtos_hm_board.Prelude.Signed.{ℤ, pos, pos_part, neg_part, ◌+ℤ◌, ◌-ℤ◌, ◌*ℤ◌}
use rtos_hm_board.Fft.Sincos.{sincos_first, sincos_second}

abbrev pub entry : ℕ → ℤ
entry i = get_or (sincos_first ++ sincos_second) i (pos 0)

abbrev pub sine : ℕ → ℤ
sine k = entry (2 * k)

abbrev pub cosine : ℕ → ℤ
cosine k = entry (2 * k + 1)

abbrev pub magnitude : ℤ → ℕ
magnitude z = pos_part z + neg_part z

-- How far the angle `k` is from the unit circle, in millionths of a millionth, how far the angle
-- behind `j` and `k` is from their sum.
unfoldable pub off_circle : ℕ → ℕ
off_circle k = magnitude (sine k *ℤ sine k +ℤ cosine k *ℤ cosine k -ℤ pos (10 ^ 12))

unfoldable pub off_sine : ℕ → ℕ → ℕ
off_sine j k = magnitude (sine j *ℤ cosine k +ℤ cosine j *ℤ sine k -ℤ pos (10 ^ 6) *ℤ sine (j + k))

unfoldable pub off_cosine : ℕ → ℕ → ℕ
off_cosine j k =
    magnitude (cosine j *ℤ cosine k -ℤ sine j *ℤ sine k -ℤ pos (10 ^ 6) *ℤ cosine (j + k))

-- The angle behind `j` and `k` is near their sum.
abbrev pub IsNear : ℕ → ℕ → Type 0
IsNear j k = (off_sine j k < 1500000) × (off_cosine j k < 1500000)

abbrev near : ℕ → ℕ → Bool
near j k = ltb (off_sine j k) 1500000 && ltb (off_cosine j k) 1500000

near_lem : (j k : ℕ) → near j k ≡ true → IsNear j k
near_lem j k h = ground (arith, h)

checked_circle : passes (λ k. ltb (off_circle k) 1500000) 257 ≡ true
unfolding passes off_circle ◌+ℤ◌ ◌-ℤ◌ ◌*ℤ◌
checked_circle = refl

checked_next : passes (λ k. near k 1) 256 ≡ true
unfolding passes off_sine off_cosine ◌+ℤ◌ ◌-ℤ◌ ◌*ℤ◌
checked_next = refl

checked_double : passes (λ k. near k k) 129 ≡ true
unfolding passes off_sine off_cosine ◌+ℤ◌ ◌-ℤ◌ ◌*ℤ◌
checked_double = refl

checked_rise : passes (λ k. ltb (pos_part (sine k)) (pos_part (sine (k + 1)))) 128 ≡ true
unfolding passes
checked_rise = refl

-- The 257 angles of the table, as cosine and sine, in millionths: each lies on the unit circle, the
-- angle behind each is its sum with the first one, and up to the quarter turn the angle of twice the
-- index is its double, all of them up to 1.5 millionths. From 0 the sines rise up to angle 128, whose
-- sine is 1 and whose cosine is 0.
pub sincos-IsTurning :
    (i j k l : ℕ)
    → i < 257
    → j < 256
    → k < 129
    → l < 128
    → (off_circle i < 1500000)
      × IsNear j 1
      × IsNear k k
      × (pos_part (sine l) < pos_part (sine (l + 1)))
      × (sine 0 ≡ pos 0)
      × (sine 128 ≡ pos 1000000)
      × (cosine 128 ≡ pos 0)
sincos-IsTurning i j k l i_in j_in k_in l_in = (
  ltb→lt _ _ (passes_below _ i 257 i_in checked_circle),
  near_lem j 1 (passes_below _ j 256 j_in checked_next),
  near_lem k k (passes_below _ k 129 k_in checked_double),
  ltb→lt _ _ (passes_below _ l 128 l_in checked_rise),
  refl,
  refl,
  refl,
)
