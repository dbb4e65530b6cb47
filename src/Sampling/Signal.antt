-- ===== src/Sampling/Signal.antt =====
-- The words that the sampling interrupt of system.c leaves in the signal area.
use rtos_hm_board.Prelude.{
  ℕ, zero, suc, ◌+◌, ◌*◌, ◌<◌, ◌≡◌, ap, ◌∙◌, arith, inl, List, [], ◌∷◌, length, get_or,
}
use rtos_hm_board.Config.{mem_signal_length, mem_signal_offset}
use rtos_hm_board.SpiMemory.Bus.{SpiBus, SerialMemory, Cells, store}
use rtos_hm_board.SpiMemory.Cells.{word_at, store-append}
use rtos_hm_board.SpiMemory.Laws.{contents}
use rtos_hm_board.SpiMemory.RoundTrip.{word_bytes, word_at-store, word_at-store_ne}
use rtos_hm_board.Sampling.{Readings, adca_read_ch0, Sampler}
use rtos_hm_board.Sampling.Run.{signal_bytes, running_sum, mean_word, IsComplete}
use rtos_hm_board.Sampling.Mean.{adca_read_ch0-IsSample}

abbrev pub silence : Readings
silence = record { first = 0; second = 0; third = 0; fourth = 0 }

-- Word `k` of the signal area is sample `k`.
pub word_at-signal_bytes :
    (m : Cells) (a : ℕ) (rs : List Readings) (k : ℕ)
    → k < length rs
    → word_at (store m a (signal_bytes rs)) (a + k * 2) ≡ adca_read_ch0 (get_or rs k silence)
unfolding signal_bytes
word_at-signal_bytes m a [] k lt = absurd (omega arith)
word_at-signal_bytes m a (r ∷ rs) zero lt =
    let w = adca_read_ch0 r in
    let first = store m a (word_bytes w) in
    ap (λ t. word_at t (a + 0 * 2)) (store-append m a (word_bytes w) (signal_bytes rs))
    ∙ word_at-store_ne first (a + 2) (signal_bytes rs) (a + 0 * 2) (inl (omega arith))
    ∙ ap (word_at first) (omega arith)
    ∙ word_at-store m a w (adca_read_ch0-IsSample r).0
word_at-signal_bytes m a (r ∷ rs) (suc k) lt =
    let w = adca_read_ch0 r in
    let first = store m a (word_bytes w) in
    ap (λ t. word_at t (a + suc k * 2)) (store-append m a (word_bytes w) (signal_bytes rs))
    ∙ ap (word_at (store first (a + 2) (signal_bytes rs))) (omega arith)
    ∙ word_at-signal_bytes first (a + 2) rs k (omega arith)

-- A complete measurement from the first place on: each word of the signal area, and the offset.
module _ {bus : SpiBus} (chip : SerialMemory bus) {Pin : Type 0} (toggle : Pin → Pin)
    (start s : Sampler bus Pin) (rs : List Readings) (full : length rs ≡ mem_signal_length)
    (count_lem : start.count ≡ 0) (done : IsComplete chip toggle start rs s) where
  cells : Cells
  cells = store (contents chip start.spi) 0 (signal_bytes rs)

  offset_word : ℕ
  offset_word = mean_word (running_sum start.offset rs)

  memory_lem : contents chip s.spi ≡ store cells mem_signal_offset (word_bytes offset_word)
  unfolding cells offset_word
  memory_lem =
      done.memory
      ∙ ap
          (λ c.
            store (store (contents chip start.spi) (c * 2) (signal_bytes rs)) mem_signal_offset
              (word_bytes (mean_word (running_sum start.offset rs))))
          count_lem

  pub offset_word_lem :
      word_at (contents chip s.spi) mem_signal_offset ≡ mean_word (running_sum start.offset rs)
  unfolding offset_word
  offset_word_lem =
      ap (λ m. word_at m mem_signal_offset) memory_lem
      ∙ word_at-store cells mem_signal_offset offset_word (omega arith)

  pub sample_word_lem :
      (k : ℕ)
      → k < mem_signal_length
      → word_at (contents chip s.spi) (k * 2) ≡ adca_read_ch0 (get_or rs k silence)
  unfolding cells
  sample_word_lem k lt =
      ap (λ m. word_at m (k * 2)) memory_lem
      ∙ word_at-store_ne cells mem_signal_offset (word_bytes offset_word) (k * 2)
          (inl (omega arith))
      ∙ ap (word_at cells) (omega arith)
      ∙ word_at-signal_bytes (contents chip start.spi) 0 rs k (omega arith)
