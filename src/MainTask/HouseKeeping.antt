-- ===== src/MainTask/HouseKeeping.antt =====
-- What `houseKeeping` of mainTask.c replies, and what it does to the external memory.
use rtos_hm_board.Prelude.{
  ℕ, ◌+◌, ◌≤◌, ◌<◌, ◌≡◌, ◌⊎◌, inl, refl, ap, ◌∙◌, sym, subst, arith, if◌then◌else◌, Bool, true,
  false, List, [], ◌∷◌, ◌++◌,
}
use mathlib.Core.List.{append_assoc}
use rtos_hm_board.SpiMemory.{Spi, FloatOps, FloatLaws, complex_to_bytes, complex_of_bytes}
use rtos_hm_board.SpiMemory.Bus.{SpiBus, SerialMemory, Cells, store}
use rtos_hm_board.SpiMemory.Cells.{word_at, store-outside, load-store_outside}
use rtos_hm_board.SpiMemory.Laws.{IsReady, contents, spi_mem_write_word_lem}
use rtos_hm_board.SpiMemory.Reads.{
  spi_mem_read_word_lem, spi_mem_read_complex_lem, spi_mem_write_complex_lem,
  length-complex_to_bytes,
}
use rtos_hm_board.SpiMemory.RoundTrip.{complex_at, complex_at-store, word_at-store}
use rtos_hm_board.CspTask.{Packet}
use rtos_hm_board.MainTask.{house_keeping, send_text, memory_test, power_switch_toggle}
use rtos_hm_board.MainTask.State.{
  Board, Action, done, reply, clock_off, clock_on, delay_ms, note, on_spi,
}
use rtos_hm_board.MainTask.Texts.{sprintf-fits, house_keeping_text_fits}
use rtos_hm_board.MainTask.Messages.{house_keeping_text, test_point}

module _ {bus : SpiBus} (chip : SerialMemory bus) {f : FloatOps} (laws : FloatLaws f) {Pin : Type 0}
    (toggle : Pin → Pin) (accepted : List Action → Bool) (room : 0x789 + 2 ≤ chip.size) where
  -- The memory after the two writes.
  abbrev marked : Cells → Cells
  marked m = store (store m 145 (complex_to_bytes f (test_point f))) 0x789 (0x1d ∷ 0x12 ∷ [])

  memory_test_lem :
      (s : Spi bus)
      → IsReady chip s
      → IsReady chip (memory_test f toggle accepted s)
        × (contents chip (memory_test f toggle accepted s) ≡ marked (contents chip s))
  memory_test_lem s ready =
      let first =
        spi_mem_write_complex_lem chip f 145 ready laws (test_point f)
          (omega arith, omega (arith, room)) in
      let (point, kept) =
        spi_mem_read_complex_lem chip f 145 first.ready (omega arith, omega (arith, room)) in
      let second = spi_mem_write_word_lem chip 0x789 kept.ready 7442 (omega arith, room) in
      let (word, kept') = spi_mem_read_word_lem chip 0x789 second.ready (omega arith, room) in
      (
        kept'.ready,
        kept'.same
            ∙ second.stored
            ∙ ap (λ m. store m 0x789 (0x1d ∷ 0x12 ∷ [])) (kept.same ∙ first.stored),
      )

  -- With the memory at rest and large enough, `houseKeeping` ends. It stops the timer of the RTOS,
  -- replies with its text and, after 300 ms, starts the timer again. The memory is at rest, holds
  -- the test's point at 145 and the word 7442 at 0x789, both inside the area of the signal, and is
  -- otherwise unchanged.
  pub house_keeping_marks :
      (p : Packet) (b : Board bus Pin) (a : ℕ)
      → IsReady chip b.sampler.spi
      → (a < 145) ⊎ ((145 + 8 ≤ a) × (a < 0x789)) ⊎ (0x789 + 2 ≤ a)
      → (b' : Board bus Pin) × (house_keeping f toggle accepted p b ≡ done b')
        × (b'.log
            ≡ b.log
              ++ (clock_off
                  ∷ reply p.src p.sport p.dport (house_keeping_text b.timers) 50
                  ∷ delay_ms 300
                  ∷ clock_on
                  ∷ []))
        × IsReady chip b'.sampler.spi
        × (complex_at f (contents chip b'.sampler.spi) 145 ≡ test_point f)
        × (word_at (contents chip b'.sampler.spi) 0x789 ≡ 7442)
        × (contents chip b'.sampler.spi a ≡ contents chip b.sampler.spi a)
  unfolding house_keeping
  house_keeping_marks p b a ready apart =
      let text = house_keeping_text b.timers in
      let m = contents chip b.sampler.spi in
      let spi = memory_test f toggle accepted b.sampler.spi in
      let b1 = on_spi spi (note clock_off b) in
      let (b2, success) = send_text f toggle accepted p text 50 b1 in
      let b3 : Board bus Pin = if success then power_switch_toggle f toggle accepted b2 else b2 in
      let (ready', memory) = memory_test_lem b.sampler.spi ready in
      let same_spi = toggled-spi success b2 in
      let eight = length-complex_to_bytes f laws (test_point f) in
      let point_bytes = complex_to_bytes f (test_point f) in
      let marked_m = store m 145 point_bytes in
      (
        note clock_on (note (delay_ms 300) b3),
        rw (sprintf-fits 64 text (house_keeping_text_fits b.timers)) refl,
        ap (λ l. (l ++ (delay_ms 300 ∷ [])) ++ (clock_on ∷ [])) (toggled-log success b2)
            ∙ simp append_assoc refl,
        subst (IsReady chip) (sym same_spi) ready',
        ap (λ s. complex_at f (contents chip s) 145) same_spi
            ∙ ap (λ c. complex_at f c 145) memory
            ∙ ap (complex_of_bytes f)
                (load-store_outside marked_m 0x789 (0x1d ∷ 0x12 ∷ []) 145 8 (inl (omega arith)))
            ∙ complex_at-store f laws m 145 (test_point f),
        ap (λ s. word_at (contents chip s) 0x789) same_spi
            ∙ ap (λ c. word_at c 0x789) memory
            ∙ word_at-store marked_m 0x789 7442 (omega arith),
        ap (λ s. contents chip s a) same_spi
            ∙ ap (λ c. c a) memory
            ∙ store-outside marked_m 0x789 (0x1d ∷ 0x12 ∷ []) a (ground (arith, apart))
            ∙ store-outside m 145 point_bytes a (ground (arith, apart, eight)),
      )
    where
      toggled-spi :
          (x : Bool) (c : Board bus Pin)
          → (if x then power_switch_toggle f toggle accepted c else c).sampler.spi ≡ c.sampler.spi
      toggled-spi true c = refl
      toggled-spi false c = refl

      toggled-log :
          (x : Bool) (c : Board bus Pin)
          → (if x then power_switch_toggle f toggle accepted c else c).log ≡ c.log
      toggled-log true c = refl
      toggled-log false c = refl
