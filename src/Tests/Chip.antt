-- ===== src/Tests/Chip.antt =====
-- A serial memory of 128 KB, as concrete functions.
use rtos_hm_board.Prelude.{
  ℕ, ◌+◌, ◌%◌, ◌^◌, ◌≡◌, refl, arith, List, [], ◌∷◌, length, ap, ◌∙◌, fun_ext, if◌then◌else◌, ◌==◌,
}
use rtos_hm_board.SpiMemory.Bus.{
  SpiBus, SerialMemory, Session, idle, selected, writing, reading, Cells, Bytes, update, store,
  load, address_of,
}

pub record Device : Type 0 where
  pub session : Session
  pub memory : Cells

abbrev pub chip_size : ℕ
chip_size = 2 ^ 17

abbrev pub cells_of : Device → Cells
cells_of d = λ a. d.memory a % 2 ^ 8

abbrev pub command_to : Device → List ℕ → Device
command_to d (op ∷ h ∷ m ∷ l ∷ xs) =
    if op == 2
    then record {
      session = writing (address_of h m l + length xs);
      memory = store d.memory (address_of h m l) xs;
    }
    else (if op == 3 then record d { session = reading (address_of h m l) } else d)
command_to d _ = d

abbrev pub write_to : Session → List ℕ → Device → Device
write_to idle xs d = d
write_to selected xs d = command_to d xs
write_to (writing a) xs d = record {
  session = writing (a + length xs);
  memory = store d.memory a xs;
}
write_to (reading a) xs d = d

abbrev pub answer_of : Session → ℕ → Device → List ℕ
answer_of (reading a) n d = load (cells_of d) a n
answer_of idle n d = []
answer_of selected n d = []
answer_of (writing a) n d = []

abbrev pub bus : SpiBus
bus = record {
  Device = Device;
  select = λ d. record d { session = selected };
  deselect = λ d. record d { session = idle };
  write_packet = λ xs d. write_to d.session xs d;
  read_packet = λ n d. (answer_of d.session n d, d);
}

pub cells_of-store :
    (m : Cells) (a : ℕ) (xs : List ℕ)
    → Bytes xs
    → ◌≡◌ {A = Cells} (λ b. store m a xs b % 2 ^ 8) (store (λ b. m b % 2 ^ 8) a xs)
cells_of-store m a [] h = refl
cells_of-store m a (x ∷ xs) h =
    cells_of-store (update m a x) (a + 1) xs h.1
    ∙ ap (λ t. store t (a + 1) xs) (fun_ext (λ b. ground (arith, h.0)))

abbrev pub chip : SerialMemory bus
chip = record {
  size = chip_size;
  session = λ d. d.session;
  cells = cells_of;
  cells_are_bytes = λ d a. omega arith;
  session-select = λ d h. refl;
  cells-select = λ d. refl;
  session-deselect = λ d. refl;
  cells-deselect = λ d. refl;
  session-write_command =
      λ d h m l xs e fits. ap (λ s. (write_to s (2 ∷ h ∷ m ∷ l ∷ xs) d).session) e;
  cells-write_command = λ d h m l xs e fits v.
      ap (λ s. cells_of (write_to s (2 ∷ h ∷ m ∷ l ∷ xs) d)) e
      ∙ cells_of-store d.memory (address_of h m l) xs v;
  session-write_more = λ d a xs e fits. ap (λ s. (write_to s xs d).session) e;
  cells-write_more =
      λ d a xs e fits v. ap (λ s. cells_of (write_to s xs d)) e ∙ cells_of-store d.memory a xs v;
  session-read_command = λ d h m l e. ap (λ s. (write_to s (3 ∷ h ∷ m ∷ l ∷ []) d).session) e;
  cells-read_command = λ d h m l e. ap (λ s. cells_of (write_to s (3 ∷ h ∷ m ∷ l ∷ []) d)) e;
  read_packet_lem = λ d a n e fits. ap (λ s. answer_of s n d) e;
  cells-read_packet = λ d n. refl;
}
