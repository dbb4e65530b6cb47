-- ===== src/SpiMemory/Packets.antt =====
-- The bytes that the functions of spi_memory_23lcxx.c put into `buffer_memory`.
use rtos_hm_board.Prelude.{
  ℕ, zero, suc, ◌/◌, ◌%◌, ◌^◌, ◌≤◌, ◌<◌, List, [], ◌∷◌, bit_and, set, take, length, ◌≡◌, refl, ap,
  arith, length-set,
}
use rtos_hm_board.Prelude.Bits.{bit_and_byte, bit_and-field}
use rtos_hm_board.SpiMemory.{command, overwrite}
use rtos_hm_board.SpiMemory.Bus.{address_of}

abbrev pub high_byte : ℕ → ℕ
high_byte a = bit_and a 0xff0000 / 2 ^ 16 % 2 ^ 8

abbrev pub middle_byte : ℕ → ℕ
middle_byte a = bit_and a 0x00ff00 / 2 ^ 8 % 2 ^ 8

abbrev pub low_byte : ℕ → ℕ
low_byte a = bit_and a 0x0000ff % 2 ^ 8

-- The three bytes of a command name every address of 24 bits.
pub address_of-bytes :
    (a : ℕ) → a < 2 ^ 24 → address_of (high_byte a) (middle_byte a) (low_byte a) ≡ a
address_of-bytes a h = omega (
  arith,
  bit_and-field 16 a 255,
  bit_and_byte (a / 2 ^ 16),
  bit_and-field 8 a 255,
  bit_and_byte (a / 2 ^ 8),
  bit_and_byte a,
)

-- An array of at least eight elements, taken apart.
pub record StartsLong (b : List ℕ) : Type 0 where
  pub x0 : ℕ
  pub x1 : ℕ
  pub x2 : ℕ
  pub x3 : ℕ
  pub x4 : ℕ
  pub x5 : ℕ
  pub x6 : ℕ
  pub x7 : ℕ
  pub rest : List ℕ
  pub shape : b ≡ x0 ∷ x1 ∷ x2 ∷ x3 ∷ x4 ∷ x5 ∷ x6 ∷ x7 ∷ rest

pub starts_long : (b : List ℕ) → 8 ≤ length b → StartsLong b
starts_long (x0 ∷ x1 ∷ x2 ∷ x3 ∷ x4 ∷ x5 ∷ x6 ∷ x7 ∷ rest) h = record {
  x0 = x0;
  x1 = x1;
  x2 = x2;
  x3 = x3;
  x4 = x4;
  x5 = x5;
  x6 = x6;
  x7 = x7;
  rest = rest;
  shape = refl;
}
starts_long (x0 ∷ x1 ∷ x2 ∷ x3 ∷ x4 ∷ x5 ∷ x6 ∷ []) h = absurd (omega arith)
starts_long (x0 ∷ x1 ∷ x2 ∷ x3 ∷ x4 ∷ x5 ∷ []) h = absurd (omega arith)
starts_long (x0 ∷ x1 ∷ x2 ∷ x3 ∷ x4 ∷ []) h = absurd (omega arith)
starts_long (x0 ∷ x1 ∷ x2 ∷ x3 ∷ []) h = absurd (omega arith)
starts_long (x0 ∷ x1 ∷ x2 ∷ []) h = absurd (omega arith)
starts_long (x0 ∷ x1 ∷ []) h = absurd (omega arith)
starts_long (x0 ∷ []) h = absurd (omega arith)
starts_long [] h = absurd (omega arith)

module _ (opcode a : ℕ) (b : List ℕ) (long : 8 ≤ length b) where
  pub length-command : length (command opcode a b) ≡ length b
  unfolding command
  length-command = rw (length-set, length-set, length-set, length-set)

  pub take-command :
      take 4 (command opcode a b) ≡ opcode ∷ high_byte a ∷ middle_byte a ∷ low_byte a ∷ []
  unfolding command
  take-command = rw (starts_long b long).shape

  pub take-command_byte :
      (x : ℕ)
      → take 5 (set (command opcode a b) 4 x)
        ≡ opcode ∷ high_byte a ∷ middle_byte a ∷ low_byte a ∷ x ∷ []
  unfolding command
  take-command_byte x = rw (starts_long b long).shape

  pub take-command_word :
      (x y : ℕ)
      → take 6 (set (set (command opcode a b) 4 x) 5 y)
        ≡ opcode ∷ high_byte a ∷ middle_byte a ∷ low_byte a ∷ x ∷ y ∷ []
  unfolding command
  take-command_word x y = rw (starts_long b long).shape

pub length-overwrite : (xs b : List ℕ) → length (overwrite xs b) ≡ length b
length-overwrite xs [] = refl
length-overwrite [] (y ∷ b) = refl
length-overwrite (x ∷ xs) (y ∷ b) = ap suc (length-overwrite xs b)

-- What was written is at the front.
pub take-overwrite :
    (n : ℕ) (xs b : List ℕ) → length xs ≡ n → n ≤ length b → take n (overwrite xs b) ≡ xs
take-overwrite zero [] b e h = refl
take-overwrite zero (x ∷ xs) b e h = absurd (omega arith)
take-overwrite (suc n) [] b e h = absurd (omega arith)
take-overwrite (suc n) (x ∷ xs) [] e h = absurd (omega arith)
take-overwrite (suc n) (x ∷ xs) (y ∷ b) e h =
    ap (λ t. x ∷ t) (take-overwrite n xs b (omega arith) (omega arith))
