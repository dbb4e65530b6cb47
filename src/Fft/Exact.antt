-- ===== src/Fft/Exact.antt =====
-- Arithmetic without rounding, against which the expressions of fft_memory.c are compared. The floats
-- of the board are no such arithmetic: they round, and so do the constants of the table.
use native.Mathlib.Nat.{mod-lt}
use rtos_hm_board.Prelude.{
  ℕ, zero, suc, ◌+◌, ◌-◌, ◌*◌, ◌%◌, ◌<◌, ltb, dec_lt, lt→ltb, false, ◌≡◌, sym, ap, ap₂, ◌∙◌, arith,
}
use rtos_hm_board.Prelude.Signed.{pos}
use rtos_hm_board.Prelude.Ring.{Ring, pow}
use rtos_hm_board.Prelude.Ring.Gauss.{
  re, im, re_assoc, im_assoc, re-add, im-add, add-re, add-im, one-re, one-im, re-one, im-one,
}
use rtos_hm_board.SpiMemory.{FloatOps, Complex}
use rtos_hm_board.SpiMemory.Bus.{SpiBus}
use rtos_hm_board.Fft.{sincos, butterfly}
use rtos_hm_board.Fft.Transform.{pair_of, stage_of}
use rtos_hm_board.Fft.Dft.{ring_stage}

module _ (f : FloatOps) where
  abbrev pub zero_float : f.Float
  zero_float = f.of_int 0

  abbrev pub one_float : f.Float
  one_float = f.of_micro (pos 1000000)

  -- Addition and multiplication are those of a commutative ring.
  pub record ExactOps : Type 0 where
    pub add_assoc : (a b c : f.Float) → f.add (f.add a b) c ≡ f.add a (f.add b c)
    pub add_comm : (a b : f.Float) → f.add a b ≡ f.add b a
    pub add-zero : (a : f.Float) → f.add a zero_float ≡ a
    pub sub-add_neg : (a b : f.Float) → f.sub a b ≡ f.add a (f.sub zero_float b)
    pub sub_self : (a : f.Float) → f.sub a a ≡ zero_float
    pub mul_assoc : (a b c : f.Float) → f.mul (f.mul a b) c ≡ f.mul a (f.mul b c)
    pub mul_comm : (a b : f.Float) → f.mul a b ≡ f.mul b a
    pub mul-add : (a b c : f.Float) → f.mul a (f.add b c) ≡ f.add (f.mul a b) (f.mul a c)
    pub mul-one : (a : f.Float) → f.mul a one_float ≡ a

module _ {f : FloatOps} (e : ExactOps f) where
  abbrev pub float_ring : Ring f.Float
  float_ring = record {
    zero = zero_float f;
    one = one_float f;
    add = f.add;
    mul = f.mul;
    neg = f.sub (zero_float f);
    add_assoc = e.add_assoc;
    add_comm = e.add_comm;
    add-zero = e.add-zero;
    add-neg = λ a. sym (e.sub-add_neg a a) ∙ e.sub_self a;
    mul_assoc = e.mul_assoc;
    one-mul = λ a. e.mul_comm (one_float f) a ∙ e.mul-one a;
    mul-one = e.mul-one;
    mul-add = e.mul-add;
    add-mul = λ a b c.
        e.mul_comm (f.add a b) c ∙ e.mul-add c a b ∙ ap₂ f.add (e.mul_comm c a) (e.mul_comm c b);
  }

  abbrev complex : f.Float → f.Float → Complex f
  complex x y = record { real = x; imag = y }

  abbrev pub complex_ring : Ring (Complex f)
  complex_ring =
      let r = float_ring in
      record {
        zero = complex r.zero r.zero;
        one = complex r.one r.zero;
        add = λ a b. complex (r.add a.real b.real) (r.add a.imag b.imag);
        mul = λ a b.
            complex (re ⦃s = r⦄ a.real a.imag b.real b.imag)
              (im ⦃s = r⦄ a.real a.imag b.real b.imag);
        neg = λ a. complex (r.neg a.real) (r.neg a.imag);
        add_assoc = λ a b c.
            ap₂ complex (r.add_assoc a.real b.real c.real) (r.add_assoc a.imag b.imag c.imag);
        add_comm = λ a b. ap₂ complex (r.add_comm a.real b.real) (r.add_comm a.imag b.imag);
        add-zero = λ a. ap₂ complex (r.add-zero a.real) (r.add-zero a.imag);
        add-neg = λ a. ap₂ complex (r.add-neg a.real) (r.add-neg a.imag);
        mul_assoc = λ a b c.
            ap₂ complex (re_assoc ⦃s = r⦄ a.real a.imag b.real b.imag c.real c.imag)
              (im_assoc ⦃s = r⦄ a.real a.imag b.real b.imag c.real c.imag);
        one-mul = λ a. ap₂ complex (one-re ⦃s = r⦄ a.real a.imag) (one-im ⦃s = r⦄ a.real a.imag);
        mul-one = λ a. ap₂ complex (re-one ⦃s = r⦄ a.real a.imag) (im-one ⦃s = r⦄ a.real a.imag);
        mul-add = λ a b c.
            ap₂ complex (re-add ⦃s = r⦄ a.real a.imag b.real b.imag c.real c.imag)
              (im-add ⦃s = r⦄ a.real a.imag b.real b.imag c.real c.imag);
        add-mul = λ a b c.
            ap₂ complex (add-re ⦃s = r⦄ a.real a.imag b.real b.imag c.real c.imag)
              (add-im ⦃s = r⦄ a.real a.imag b.real b.imag c.real c.imag);
      }

-- The angle `k` of the table, as cosine and sine.
abbrev pub angle : (bus : SpiBus) (f : FloatOps) → ℕ → Complex f
angle bus f k = record { real = sincos bus f (k * 2 + 1); imag = sincos bus f (k * 2) }

-- The entries of the table stand for exact values: each angle is the one before it turned by the
-- first one, and 256 of them are half a turn.
pub record ExactTable (bus : SpiBus) {f : FloatOps} (e : ExactOps f) : Type 0 where
  pub no_angle : angle bus f 0 ≡ (complex_ring e).one
  pub next_angle :
      (k : ℕ) → k < 255 → angle bus f (k + 1) ≡ (complex_ring e).mul (angle bus f k) (angle bus f 1)
  pub half_turn :
      (complex_ring e).mul (angle bus f 255) (angle bus f 1)
      ≡ (complex_ring e).neg (complex_ring e).one

product_in : (d n angf : ℕ) → d < n → n * angf ≡ 256 → d * angf < 256
product_in d n zero lt whole = absurd (omega arith)
product_in d n (suc a) lt whole = grind arith

module _ {bus : SpiBus} {f : FloatOps} (e : ExactOps f) (table : ExactTable bus e) where
  angle-pow : (k : ℕ) → k < 256 → angle bus f k ≡ pow ⦃s = complex_ring e⦄ (angle bus f 1) k
  unfolding pow
  angle-pow zero lt = table.no_angle
  angle-pow (suc k) lt =
      let next : suc k ≡ k + 1 = omega arith in
      ap (angle bus f) next
      ∙ table.next_angle k (omega arith)
      ∙ ap (λ a. (complex_ring e).mul a (angle bus f 1)) (angle-pow k (omega arith))

  pub pow-half_turn :
      pow ⦃s = complex_ring e⦄ (angle bus f 1) 256 ≡ (complex_ring e).neg (complex_ring e).one
  unfolding pow
  pow-half_turn =
      ap (λ a. (complex_ring e).mul a (angle bus f 1)) (sym (angle-pow 255 (omega arith)))
      ∙ table.half_turn

  -- A butterfly turns its second point by the angle, and adds and subtracts the result.
  butterfly_lem :
      (k fnk : ℕ) (x y : Complex f)
      → k < 256
      → fnk ≡ k * 2
      → let turned = (complex_ring e).mul y (pow ⦃s = complex_ring e⦄ (angle bus f 1) k) in
        ((pair_of bus f fnk x y).0 ≡ (complex_ring e).add x turned)
        × ((pair_of bus f fnk x y).1 ≡ (complex_ring e).add x ((complex_ring e).neg turned))
  unfolding butterfly
  butterfly_lem k fnk x y lt at =
      let a = angle bus f k in
      let difference = e.sub-add_neg (f.mul y.real a.real) (f.mul y.imag a.imag) in
      let turn = ap (λ c. (complex_ring e).mul y c) (angle-pow k lt) in
      (
        ap (λ t. (pair_of bus f t x y).0) at
            ∙ ap (λ t. complex e (f.add x.real t) (f.add x.imag ((complex_ring e).mul y a).imag))
                difference
            ∙ ap (λ t. (complex_ring e).add x t) turn,
        ap (λ t. (pair_of bus f t x y).1) at
            ∙ ap₂ (complex e)
                (e.sub-add_neg x.real _
                  ∙ ap (λ t. f.add x.real (f.sub (zero_float f) t)) difference)
                (e.sub-add_neg x.imag _)
            ∙ ap (λ t. (complex_ring e).add x ((complex_ring e).neg t)) turn,
      )

  pub stage_of-ring_stage :
      (n angf : ℕ) (p : ℕ → Complex f) (j : ℕ)
      → 0 < n
      → n * angf ≡ 256
      → stage_of bus f n angf p j ≡ ring_stage ⦃s = complex_ring e⦄ (angle bus f 1) n angf p j
  unfolding stage_of ring_stage
  stage_of-ring_stage n angf p j positive whole =
      let place = j % (2 * n) in
      let small : place < 2 * n = mod-lt j (omega arith) in
      elim (dec_lt place n) [
        | yes low ↦
            rw (lt→ltb place n low)
              (butterfly_lem (place * angf) (place * (angf * 2)) (p j) (p (j + n))
                (product_in place n angf low whole) (omega arith)).0
        | no high ↦
            let not_low : ltb place n ≡ false = ground arith in
            rw not_low
              (butterfly_lem ((place - n) * angf) ((place - n) * (angf * 2)) (p (j - n)) (p j)
                (product_in (place - n) n angf (omega arith) whole) (omega arith)).1
      ]
