-- ===== src/Sampling/Run.antt =====
-- The sampling interrupt of system.c over a whole measurement.
use rtos_hm_board.Prelude.{
  ℕ, ◌+◌, ◌*◌, ◌%◌, ◌^◌, ◌≤◌, ◌<◌, ◌≡◌, ◌==◌, refl, arith, List, [], ◌∷◌, ◌++◌, length, ap, ap₂,
  ◌∙◌, sym, true, false,
}
use rtos_hm_board.Prelude.Signed.{widen, divide32}
use rtos_hm_board.Config.{mem_signal_begin, mem_signal_offset, mem_signal_length}
use rtos_hm_board.SpiMemory.{spi_mem_write_word}
use rtos_hm_board.SpiMemory.Bus.{SpiBus, SerialMemory, store}
use rtos_hm_board.SpiMemory.Cells.{store-append}
use rtos_hm_board.SpiMemory.Laws.{IsReady, Wrote, contents, spi_mem_write_word_lem}
use rtos_hm_board.SpiMemory.RoundTrip.{word_bytes}
use rtos_hm_board.Sampling.{Readings, adca_read_ch0, Sampler, sample, samples}

-- The bytes of the signal area for a list of measurements.
unfoldable pub signal_bytes : List Readings → List ℕ
signal_bytes [] = []
signal_bytes (r ∷ rs) = word_bytes (adca_read_ch0 r) ++ signal_bytes rs

-- The running sum, as the code keeps it.
unfoldable pub running_sum : ℕ → List Readings → ℕ
running_sum offset [] = offset
running_sum offset (r ∷ rs) = running_sum ((offset + widen (adca_read_ch0 r)) % 2 ^ 32) rs

abbrev pub mean_word : ℕ → ℕ
mean_word offset = divide32 offset mem_signal_length % 2 ^ 16

-- With no measurement in progress, the interrupt does nothing.
pub sample-stopped :
    (bus : SpiBus) {Pin : Type 0} (toggle : Pin → Pin) (r : Readings) (s : Sampler bus Pin)
    → s.sampling ≡ false
    → sample bus toggle r s ≡ s
unfolding sample
sample-stopped bus toggle r s stopped = rw stopped refl

module _ {bus : SpiBus} (chip : SerialMemory bus) {Pin : Type 0} (toggle : Pin → Pin) where
  -- What the end of a measurement leaves: sampling is over and its variables are cleared, the
  -- switch has been toggled once, the signal area holds the measurements from the start's place on
  -- and the word behind it their mean, and no other cell has changed.
  pub record IsComplete (start : Sampler bus Pin) (rs : List Readings) (s : Sampler bus Pin)
      : Type 0 where
    pub stopped : s.sampling ≡ false
    pub count_cleared : s.count ≡ 0
    pub offset_cleared : s.offset ≡ 0
    pub toggled : s.power ≡ toggle start.power
    pub ready : IsReady chip s.spi
    pub memory :
        contents chip s.spi
        ≡ store
            (store (contents chip start.spi) (start.count * 2) (signal_bytes rs))
            mem_signal_offset
            (word_bytes (mean_word (running_sum start.offset rs)))

  -- Sampling in progress, with the memory at rest.
  pub record IsSampling (s : Sampler bus Pin) : Type 0 where
    pub running : s.sampling ≡ true
    pub count_in : s.count < mem_signal_length
    pub ready : IsReady chip s.spi
    pub room : mem_signal_offset + 2 ≤ chip.size

  module _ (r : Readings) (s : Sampler bus Pin) (v : IsSampling s) where
    abbrev here : ℕ
    here = (s.count * 2 + mem_signal_begin) % 2 ^ 16

    here_lem : here ≡ s.count * 2
    here_lem = omega (arith, v.count_in)

    wrote :
        Wrote chip s.spi
          (spi_mem_write_word bus here (adca_read_ch0 r) s.spi)
          here
          (word_bytes (adca_read_ch0 r))
    wrote =
        spi_mem_write_word_lem chip here v.ready (adca_read_ch0 r)
          (omega (arith, v.room), omega (arith, v.room, v.count_in))

    -- An interrupt before the last of a measurement.
    pub step :
        s.count + 1 < mem_signal_length
        → IsSampling (sample bus toggle r s)
          × ((sample bus toggle r s).count ≡ s.count + 1)
          × ((sample bus toggle r s).offset ≡ (s.offset + widen (adca_read_ch0 r)) % 2 ^ 32)
          × ((sample bus toggle r s).power ≡ s.power)
          × (contents chip (sample bus toggle r s).spi
              ≡ store (contents chip s.spi) (s.count * 2) (word_bytes (adca_read_ch0 r)))
    unfolding sample
    step h =
        rw (v.running, more)
          (
            record { running = refl; count_in = omega arith; ready = wrote.ready; room = v.room },
            omega arith,
            refl,
            refl,
            wrote.stored
                ∙ ap (λ t. store (contents chip s.spi) t (word_bytes (adca_read_ch0 r))) here_lem,
          )
      where
        more : ((s.count + 1) % 2 ^ 16 == mem_signal_length) ≡ false
        more = ground arith

    -- The last interrupt of a measurement.
    last : s.count + 1 ≡ mem_signal_length → IsComplete s (r ∷ []) (sample bus toggle r s)
    unfolding sample signal_bytes running_sum
    last h =
        rw (v.running, full)
          (record {
            stopped = refl;
            count_cleared = refl;
            offset_cleared = refl;
            toggled = refl;
            ready = mean_wrote.ready;
            memory =
                mean_wrote.stored
                ∙ ap (λ m. store m mem_signal_offset (word_bytes (mean_word offset)))
                    (wrote.stored
                      ∙ ap (λ t. store (contents chip s.spi) t (word_bytes (adca_read_ch0 r)))
                          here_lem);
          })
      where
        full : ((s.count + 1) % 2 ^ 16 == mem_signal_length) ≡ true
        full = ground arith

        offset : ℕ
        offset = (s.offset + widen (adca_read_ch0 r)) % 2 ^ 32

        mean_wrote :
            Wrote chip
              (spi_mem_write_word bus here (adca_read_ch0 r) s.spi)
              (spi_mem_write_word bus mem_signal_offset
                (mean_word offset)
                (spi_mem_write_word bus here (adca_read_ch0 r) s.spi))
              mem_signal_offset
              (word_bytes (mean_word offset))
        mean_wrote =
            spi_mem_write_word_lem chip mem_signal_offset wrote.ready (mean_word offset)
              (omega arith, v.room)

  -- From any point of a measurement in progress, with the memory at rest and large enough for the
  -- offset word: as many interrupts as samples are missing, at least one, complete it. Sampling
  -- has stopped, its counter and sum are cleared, the switch has been toggled once, and the memory
  -- is that of the start with the averaged conversions stored from the start's place on, and the
  -- mean of the running sum in the offset word.
  pub samples-IsComplete :
      (r : Readings) (rs : List Readings) (s : Sampler bus Pin)
      → IsSampling s
      → s.count + length (r ∷ rs) ≡ mem_signal_length
      → IsComplete s (r ∷ rs) (samples bus toggle (r ∷ rs) s)
  unfolding samples signal_bytes running_sum
  samples-IsComplete r [] s v h = last r s v h
  samples-IsComplete r (q ∷ rs) s v h =
      let (going, count_lem, offset_lem, power_lem, memory_lem) = step r s v (omega arith) in
      let rest = samples-IsComplete q rs (sample bus toggle r s) going (omega arith) in
      record {
        stopped = rest.stopped;
        count_cleared = rest.count_cleared;
        offset_cleared = rest.offset_cleared;
        toggled = rest.toggled ∙ ap toggle power_lem;
        ready = rest.ready;
        memory =
            rest.memory
            ∙ ap₂
                (λ m o. store m mem_signal_offset (word_bytes (mean_word (running_sum o (q ∷ rs)))))
                (ap₂ (λ m c. store m (c * 2) (signal_bytes (q ∷ rs))) memory_lem count_lem ∙ joined)
                offset_lem;
      }
    where
      joined :
          store
            (store (contents chip s.spi) (s.count * 2) (word_bytes (adca_read_ch0 r)))
            ((s.count + 1) * 2)
            (signal_bytes (q ∷ rs))
          ≡ store (contents chip s.spi) (s.count * 2) (signal_bytes (r ∷ q ∷ rs))
      joined =
          ap
            (λ t.
              store (store (contents chip s.spi) (s.count * 2) (word_bytes (adca_read_ch0 r))) t
                (signal_bytes (q ∷ rs)))
            (omega arith)
          ∙ sym (
              store-append (contents chip s.spi) (s.count * 2) (word_bytes (adca_read_ch0 r))
                (signal_bytes (q ∷ rs)))
