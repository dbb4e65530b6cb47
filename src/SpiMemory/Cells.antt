-- ===== src/SpiMemory/Cells.antt =====
-- Laws of `store` and `load`, the two operations on the contents of the memory.
use rtos_hm_board.Prelude.{
  ℕ, zero, suc, ◌+◌, ◌*◌, ◌^◌, ◌≤◌, ◌<◌, ◌⊎◌, List, [], ◌∷◌, ◌++◌, length, ◌≡◌, refl, ap, ap₂, ◌∙◌,
  arith,
}
use rtos_hm_board.SpiMemory.Bus.{Cells, update, store, load}

-- A cell outside the written range keeps its byte.
pub store-outside :
    (m : Cells) (a : ℕ) (xs : List ℕ) (b : ℕ) → (b < a) ⊎ (a + length xs ≤ b) → store m a xs b ≡ m b
store-outside m a [] b h = refl
store-outside m a (x ∷ xs) b h = ground (arith, store-outside (update m a x) (a + 1) xs b)

-- Reading back what was written.
pub load-store : (m : Cells) (a : ℕ) (xs : List ℕ) → load (store m a xs) a (length xs) ≡ xs
load-store m a [] = refl
load-store m a (x ∷ xs) =
    ap₂ ◌∷◌ (ground (arith, store-outside (update m a x) (a + 1) xs a))
      (load-store (update m a x) (a + 1) xs)

-- Reading a range that the write does not touch.
pub load-store_outside :
    (m : Cells) (a : ℕ) (xs : List ℕ) (b n : ℕ)
    → (b + n ≤ a) ⊎ (a + length xs ≤ b)
    → load (store m a xs) b n ≡ load m b n
load-store_outside m a xs b zero h = refl
load-store_outside m a xs b (suc n) h =
    ap₂ ◌∷◌ (ground (arith, store-outside m a xs b))
      (load-store_outside m a xs (b + 1) n (ground arith))

-- The word at an address: the code keeps its high byte first.
abbrev pub word_at : Cells → ℕ → ℕ
word_at m a = m a * 2 ^ 8 + m (a + 1)

pub length-load : (m : Cells) (a n : ℕ) → length (load m a n) ≡ n
length-load m a zero = refl
length-load m a (suc n) = ap suc (length-load m (a + 1) n)

-- One write after another, without a gap, is one write.
pub store-append :
    (m : Cells) (a : ℕ) (xs ys : List ℕ)
    → store m a (xs ++ ys) ≡ store (store m a xs) (a + length xs) ys
store-append m a [] ys = ap (λ t. store m t ys) (omega arith)
store-append m a (x ∷ xs) ys =
    store-append (update m a x) (a + 1) xs ys
    ∙ ap (λ t. store (store (update m a x) (a + 1) xs) t ys) (omega arith)
