-- ===== src/Prelude/Slices.antt =====
-- Runs of elements in an array: reading one, and storing one.
use rtos_hm_board.Prelude.{
  ℕ, zero, suc, ◌+◌, ◌≤◌, ◌<◌, ◌≡◌, ◌≢◌, refl, arith, List, [], ◌∷◌, length, set, get_or, ap, ap₂,
  ◌∙◌, length-set,
}

-- `n` elements from index `i` on.
unfoldable pub slice : List ℕ → ℕ → ℕ → List ℕ
slice xs i zero = []
slice xs i (suc n) = get_or xs i 0 ∷ slice xs (i + 1) n

-- Elements stored one after the other from index `i` on.
unfoldable pub put : List ℕ → ℕ → List ℕ → List ℕ
put xs i [] = xs
put xs i (y ∷ ys) = put (set xs i y) (i + 1) ys

get_or-set_self : (xs : List ℕ) (i v : ℕ) → i < length xs → get_or (set xs i v) i 0 ≡ v
get_or-set_self [] i v h = absurd (omega arith)
get_or-set_self (x ∷ xs) zero v h = refl
get_or-set_self (x ∷ xs) (suc i) v h = get_or-set_self xs i v (omega arith)

get_or-set_ne : (xs : List ℕ) (i j v : ℕ) → i ≢ j → get_or (set xs i v) j 0 ≡ get_or xs j 0
get_or-set_ne [] i j v h = refl
get_or-set_ne (x ∷ xs) zero zero v h = absurd (h refl)
get_or-set_ne (x ∷ xs) zero (suc j) v h = refl
get_or-set_ne (x ∷ xs) (suc i) zero v h = refl
get_or-set_ne (x ∷ xs) (suc i) (suc j) v h = get_or-set_ne xs i j v (λ e. h (ap suc e))

-- Elements in front of the stored ones stay.
get_or-put :
    (xs : List ℕ) (i : ℕ) (ys : List ℕ) (j : ℕ) → j < i → get_or (put xs i ys) j 0 ≡ get_or xs j 0
unfolding put
get_or-put xs i [] j h = refl
get_or-put xs i (y ∷ ys) j h =
    get_or-put (set xs i y) (i + 1) ys j (omega arith) ∙ get_or-set_ne xs i j y (omega arith)

pub length-put : (xs : List ℕ) (i : ℕ) (ys : List ℕ) → length (put xs i ys) ≡ length xs
unfolding put
length-put xs i [] = refl
length-put xs i (y ∷ ys) = length-put (set xs i y) (i + 1) ys ∙ length-set xs i y

-- What is stored is what stands there.
pub slice-put :
    (xs : List ℕ) (i : ℕ) (ys : List ℕ)
    → i + length ys ≤ length xs
    → slice (put xs i ys) i (length ys) ≡ ys
unfolding slice put
slice-put xs i [] h = refl
slice-put xs i (y ∷ ys) h =
    ap₂ ◌∷◌
      (get_or-put (set xs i y) (i + 1) ys i (omega arith) ∙ get_or-set_self xs i y (omega arith))
      (slice-put (set xs i y) (i + 1) ys (rw length-set (omega arith)))

slice-cons : (x : ℕ) (xs : List ℕ) (i n : ℕ) → slice (x ∷ xs) (suc i) n ≡ slice xs i n
unfolding slice
slice-cons x xs i zero = refl
slice-cons x xs i (suc n) =
    ap (λ t. get_or xs i 0 ∷ t)
      (ap (λ k. slice (x ∷ xs) k n) (omega arith) ∙ slice-cons x xs (i + 1) n)

-- The whole of a list.
pub slice-all : (xs : List ℕ) → slice xs 0 (length xs) ≡ xs
unfolding slice
slice-all [] = refl
slice-all (x ∷ xs) =
    ap (λ t. x ∷ t)
      (ap (λ k. slice (x ∷ xs) k (length xs)) (omega arith)
        ∙ slice-cons x xs 0 (length xs)
        ∙ slice-all xs)

pub length-slice : (xs : List ℕ) (i n : ℕ) → length (slice xs i n) ≡ n
unfolding slice
length-slice xs i zero = refl
length-slice xs i (suc n) = ap suc (length-slice xs (i + 1) n)
