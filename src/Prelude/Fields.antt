-- ===== src/Prelude/Fields.antt =====
-- Fields of a register under a mask.
use rtos_hm_board.Prelude.{
  ℕ, zero, suc, ◌+◌, ◌-◌, ◌*◌, ◌/◌, ◌%◌, ◌^◌, ◌<◌, ◌≡◌, refl, arith, bit_and, bit_or, min, ap, ap₂,
  ◌∙◌, sym,
}
use Prim.Native.Nat.{max, bit_and-bitwise, bit_or-bitwise}
use native.Mathlib.Nat.{pow-suc}
use rtos_hm_board.Prelude.Bits.{bit_and_digit, bit_or_digit, bit_and-zero}

-- `~` on `k` bits.
abbrev pub complement : ℕ → ℕ → ℕ
complement k m = 2 ^ k - 1 - m

-- `(w & ~m) | v`
abbrev pub set_field : ℕ → ℕ → ℕ → ℕ → ℕ
set_field k w m v = bit_or (bit_and w (complement k m)) v

pub bit_and-halves :
    (a b : ℕ)
    → (bit_and a b / 2 ≡ bit_and (a / 2) (b / 2)) × (bit_and a b % 2 ≡ min (a % 2) (b % 2))
bit_and-halves a b = (omega (arith, bit_and_digit a b), omega (arith, bit_and_digit a b))

bit_or-halves :
    (a b : ℕ) → (bit_or a b / 2 ≡ bit_or (a / 2) (b / 2)) × (bit_or a b % 2 ≡ max (a % 2) (b % 2))
bit_or-halves a b = (omega (arith, bit_or_digit a b), omega (arith, bit_or_digit a b))

pub complement-halves :
    (k m : ℕ)
    → m < 2 ^ suc k
    → (complement (suc k) m / 2 ≡ complement k (m / 2)) × (complement (suc k) m % 2 ≡ 1 - m % 2)
complement-halves k m h = (omega (arith, pow-suc 2 k), omega (arith, pow-suc 2 k))

-- The first digit of a register, and the others.
set_field-halves :
    (k w m v : ℕ)
    → m < 2 ^ suc k
    → (set_field (suc k) w m v / 2 ≡ set_field k (w / 2) (m / 2) (v / 2))
      × (set_field (suc k) w m v % 2 ≡ max (min (w % 2) (1 - m % 2)) (v % 2))
set_field-halves k w m v hm =
    let c = complement-halves k m hm in
    let a = bit_and-halves w (complement (suc k) m) in
    let o = bit_or-halves (bit_and w (complement (suc k) m)) v in
    (
      o.0 ∙ ap (λ x. bit_or x (v / 2)) (a.0 ∙ ap (bit_and (w / 2)) c.0),
      o.1 ∙ ap (λ x. max x (v % 2)) (a.1 ∙ ap (min (w % 2)) c.1),
    )

-- The bits of the mask are those of the new value, if it has no others.
pub bit_and-set_field :
    (k w m v : ℕ) → m < 2 ^ k → bit_and v m ≡ v → bit_and (set_field k w m v) m ≡ v
bit_and-set_field zero w m v hm within =
    let none : m ≡ 0 = omega arith in
    let empty : v ≡ 0 = sym within ∙ ap (bit_and v) none ∙ bit_and-zero v in
    ap (bit_and (set_field 0 w m v)) none ∙ bit_and-zero (set_field 0 w m v) ∙ sym empty
bit_and-set_field (suc k) w m v hm within =
    let x = set_field (suc k) w m v in
    let halves = set_field-halves k w m v hm in
    let rest =
      bit_and-set_field k (w / 2) (m / 2) (v / 2) (omega (arith, pow-suc 2 k))
        (omega (arith, bit_and_digit v m)) in
    let low : min (v % 2) (m % 2) ≡ v % 2 = omega (arith, bit_and_digit v m) in
    bit_and_digit x m
    ∙ ap₂ (λ h d. h * 2 + min d (m % 2)) (ap (λ t. bit_and t (m / 2)) halves.0 ∙ rest) halves.1
    ∙ omega arith

-- The other bits are kept.
pub set_field-keeps :
    (k w m v : ℕ)
    → m < 2 ^ k
    → bit_and v m ≡ v
    → bit_and (set_field k w m v) (complement k m) ≡ bit_and w (complement k m)
set_field-keeps zero w m v hm within =
    let nothing : complement 0 m ≡ 0 = omega arith in
    ap (bit_and (set_field 0 w m v)) nothing
    ∙ bit_and-zero (set_field 0 w m v)
    ∙ sym (ap (bit_and w) nothing ∙ bit_and-zero w)
set_field-keeps (suc k) w m v hm within =
    let x = set_field (suc k) w m v in
    let c = complement (suc k) m in
    let halves = set_field-halves k w m v hm in
    let others = complement-halves k m hm in
    let rest =
      set_field-keeps k (w / 2) (m / 2) (v / 2) (omega (arith, pow-suc 2 k))
        (omega (arith, bit_and_digit v m)) in
    let low : min (v % 2) (m % 2) ≡ v % 2 = omega (arith, bit_and_digit v m) in
    bit_and_digit x c
    ∙ ap₂ (λ h d. h * 2 + d) (ap₂ bit_and halves.0 others.0 ∙ rest) (ap₂ min halves.1 others.1)
    ∙ sym (
        bit_and_digit w c
        ∙ ap₂ (λ h d. h * 2 + d) (ap (bit_and (w / 2)) others.0)
            (ap (min (w % 2)) others.1 ∙ omega arith))

-- A field that is replaced by its own bits.
pub set_field-same : (k w m : ℕ) → m < 2 ^ k → w < 2 ^ k → set_field k w m (bit_and w m) ≡ w
set_field-same zero w m hm hw =
    let none : w ≡ 0 = omega arith in
    ap (λ x. set_field 0 x m (bit_and x m)) none ∙ zero_case m ∙ sym none
  where
    zero_case : (m : ℕ) → set_field 0 0 m (bit_and 0 m) ≡ 0
    zero_case m = simp (bit_and-bitwise, bit_or-bitwise) refl
set_field-same (suc k) w m hm hw =
    let v = bit_and w m in
    let x = set_field (suc k) w m v in
    let halves = set_field-halves k w m v hm in
    let taken = bit_and-halves w m in
    let rest =
      set_field-same k (w / 2) (m / 2) (omega (arith, pow-suc 2 k)) (omega (arith, pow-suc 2 k)) in
    let high : x / 2 ≡ w / 2 = halves.0 ∙ ap (set_field k (w / 2) (m / 2)) taken.0 ∙ rest in
    let low : x % 2 ≡ w % 2 = halves.1 ∙ ap (max (min (w % 2) (1 - m % 2))) taken.1 ∙ omega arith in
    omega (arith, high, low)
