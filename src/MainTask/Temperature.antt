-- ===== src/MainTask/Temperature.antt =====
-- The text of a temperature that `sendFreeHeapSpace` of mainTask.c replies with.
use rtos_hm_board.Prelude.{
  ℕ, ◌+◌, ◌-◌, ◌*◌, ◌/◌, ◌%◌, ◌^◌, ◌<◌, ◌≡◌, inl, inr, refl, ap, ap₂, ℕ_discrete, ◌∙◌, arith, ltb,
  ◌==◌, if◌then◌else◌, true, false, List, [], ◌∷◌, ◌++◌, Bool-cases,
}
use rtos_hm_board.Text.{decimal, print_int, divide16}
use rtos_hm_board.MainTask.Messages.{hundredths, temperature_text}

-- A number below 100 without leading zeros.
abbrev pub digits : ℕ → List ℕ
digits h = if ltb h 10 then (48 + h) ∷ [] else (48 + h / 10) ∷ (48 + h % 10) ∷ []

decimal-digits : (h : ℕ) → h < 100 → decimal 5 h ≡ digits h
unfolding decimal
decimal-digits h small = elim (Bool-cases (ltb h 10)) [
  | inl one ↦ rw one refl
  | inr two ↦ let front : ltb (h / 10) 10 ≡ true = ground arith in rw (two, front) refl
]

-- The hundredths of `n / 128`.
abbrev pub rest_of : ℕ → ℕ
rest_of n = n * 100 / 128 % 100

-- What is printed in front of the point, and behind it, for `n / 128` and for its negative.
abbrev pub plain_text : ℕ → List ℕ
plain_text n = decimal 5 (n / 128) ++ (b'.' ∷ (digits (rest_of n) ++ (10 ∷ [])))

abbrev pub below_zero_text : ℕ → List ℕ
below_zero_text n =
    (if ltb n 128 then 48 ∷ [] else b'-' ∷ decimal 5 (n / 128))
    ++ (b'.' ∷ ((if rest_of n == 0 then 48 ∷ [] else b'-' ∷ digits (rest_of n)) ++ (10 ∷ [])))

print_int-plain : (w : ℕ) → w < 2 ^ 15 → print_int w ≡ decimal 5 w
unfolding print_int
print_int-plain w h = let below : ltb w (2 ^ 15) ≡ true = ground arith in rw below refl

print_int-below :
    (w n : ℕ) → w ≡ (2 ^ 16 - n) % 2 ^ 16 → 0 < n → n < 2 ^ 15 → print_int w ≡ b'-' ∷ decimal 5 n
unfolding print_int
print_int-below w n e some small =
    let above : ltb w (2 ^ 15) ≡ false = ground arith in
    let back : 2 ^ 16 - w ≡ n = omega arith in rw (above, back) refl

print_int-zero : (w : ℕ) → w ≡ 0 → print_int w ≡ 48 ∷ []
unfolding print_int decimal
print_int-zero w e = rw e refl

module _ (n : ℕ) (small : n < 2 ^ 15) where
  divide16-plain : divide16 n 128 ≡ n / 128
  divide16-plain = ground arith

  hundredths-plain : hundredths n ≡ rest_of n
  hundredths-plain =
      let first : ltb n (2 ^ 15) ≡ true = ground arith in
      let fits : n * 100 / 128 % 2 ^ 16 ≡ n * 100 / 128 = omega arith in
      let second : ltb (n * 100 / 128) (2 ^ 15) ≡ true = ground arith in
      rw (first, fits, second) refl

  module _ (some : 0 < n) where
    magnitude : 2 ^ 16 - (2 ^ 16 - n) % 2 ^ 16 ≡ n
    magnitude = omega arith

    negative : ltb ((2 ^ 16 - n) % 2 ^ 16) (2 ^ 15) ≡ false
    negative = ground arith

    divide16-below : divide16 ((2 ^ 16 - n) % 2 ^ 16) 128 ≡ (2 ^ 16 - n / 128) % 2 ^ 16
    divide16-below = rw (negative, magnitude) refl

    hundredths-below : hundredths ((2 ^ 16 - n) % 2 ^ 16) ≡ (2 ^ 16 - rest_of n) % 2 ^ 16
    hundredths-below =
        rw (negative, magnitude)
          (elim (ℕ_discrete (n * 100 / 128) 0) [
            | yes none ↦ rw none refl
            | no more ↦
                let w = (2 ^ 16 - n * 100 / 128) % 2 ^ 16 in
                let below : ltb w (2 ^ 15) ≡ false = ground arith in
                let back : 2 ^ 16 - w ≡ n * 100 / 128 = omega arith in rw (below, back) refl
          ])

whole_text :
    (n : ℕ)
    → n < 2 ^ 15
    → print_int ((2 ^ 16 - n / 128) % 2 ^ 16)
      ≡ (if ltb n 128 then 48 ∷ [] else b'-' ∷ decimal 5 (n / 128))
whole_text n small = elim (Bool-cases (ltb n 128)) [
  | inl tiny ↦ let none : n / 128 ≡ 0 = ground arith in rw tiny (print_int-zero _ (omega arith))
  | inr large ↦
      let some : 0 < n / 128 = ground arith in
      rw large (print_int-below _ (n / 128) refl some (omega arith))
]

rest_text :
    (n : ℕ)
    → print_int ((2 ^ 16 - rest_of n) % 2 ^ 16)
      ≡ (if rest_of n == 0 then 48 ∷ [] else b'-' ∷ digits (rest_of n))
rest_text n = elim (Bool-cases (rest_of n == 0)) [
  | inl none ↦
      let zero_rest : rest_of n ≡ 0 = ground arith in rw none (print_int-zero _ (omega arith))
  | inr more ↦
      let some : 0 < rest_of n = ground arith in
      rw more (
        print_int-below _ (rest_of n) refl some (omega arith)
        ∙ ap (λ t. b'-' ∷ t) (decimal-digits (rest_of n) (omega arith)))
]

-- For a reading of `n` 128ths of a degree, `n` below 2^15, the text has the whole degrees and,
-- behind the point, the hundredths without a leading zero, so one digit if they are below ten. For
-- the negative of it the whole degrees lose their sign when they are zero, and the hundredths,
-- unless they are zero, have a sign of their own.
pub temperature_text_lem :
    (n : ℕ)
    → n < 2 ^ 15
    → (temperature_text n ≡ plain_text n)
      × (temperature_text ((2 ^ 16 - n) % 2 ^ 16) ≡ below_zero_text n)
unfolding temperature_text
temperature_text_lem n small = (
  ap₂ (λ a b. a ++ (b'.' ∷ (b ++ (10 ∷ []))))
      (ap print_int (divide16-plain n small) ∙ print_int-plain (n / 128) (omega arith))
      (ap print_int (hundredths-plain n small)
        ∙ print_int-plain (rest_of n) (omega arith)
        ∙ decimal-digits (rest_of n) (omega arith)),
  elim (ℕ_discrete n 0) [
    | yes none ↦ rw none (
        ap₂ (λ a b. a ++ (b'.' ∷ (b ++ (10 ∷ [])))) (print_int-zero 0 refl) (print_int-zero 0 refl))
    | no some ↦
        ap₂ (λ a b. a ++ (b'.' ∷ (b ++ (10 ∷ []))))
          (ap print_int (divide16-below n small (omega arith)) ∙ whole_text n small)
          (ap print_int (hundredths-below n small (omega arith)) ∙ rest_text n)
  ],
)
