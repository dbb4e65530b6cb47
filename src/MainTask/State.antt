-- ===== src/MainTask/State.antt =====
-- What the handlers of mainTask.c work on, and the calls that leave the program.
use rtos_hm_board.Prelude.{
  ℕ, ltb, if◌then◌else◌, List, [], ◌∷◌, ◌++◌, length, Option, none, some, Bool,
}
use rtos_hm_board.SpiMemory.{Spi}
use rtos_hm_board.SpiMemory.Bus.{SpiBus}
use rtos_hm_board.Clock.{Timers}
use rtos_hm_board.Sampling.{Sampler, Readings}

-- The calls that the handlers make of other code and of timer TCC0, which drives the RTOS:
-- `csp_sendto` with destination, its port, the own port, the data and the timeout.
pub data Action : Type 0 where
  reply : ℕ → ℕ → ℕ → List ℕ → ℕ → Action
  clock_off clock_on : Action
  delay_ms task_delay : ℕ → Action

pub record Board (bus : SpiBus) (Pin : Type 0) : Type 0 where
  pub sampler : Sampler bus Pin
  pub timers : Timers
  pub log : List Action

-- What `processAll` meets while it waits for the samples: the readings at the interrupts during its
-- delay and during the loop behind it, and whether the compiler reads `sampling`, which is not
-- volatile, again in each round of that loop. If not, the loop reads it once.
pub record Wait : Type 0 where
  pub during : List Readings
  pub after : List Readings
  pub rereads : Bool

-- `overflow` is a write past the end of a local array, after which C says nothing of the rest;
-- `waiting` is a loop that does not end.
pub data Outcome (A : Type 0) : Type 0 where
  done : A → Outcome A
  overflow waiting : Outcome A

infixl 5 ◌>>=◌
abbrev pub ◌>>=◌ : {A B : Type 0} → Outcome A → (A → Outcome B) → Outcome B
done a >>= k = k a
overflow >>= k = overflow
waiting >>= k = waiting

-- What fails where the program would wait forever.
abbrev pub from_option : {A : Type 0} → Option A → Outcome A
from_option none = waiting
from_option (some a) = done a

-- `sprintf` into an array of `size` characters, with the terminating zero, and the `strcpy` and
-- `strlen` that follow it: the text of the packet.
unfoldable pub sprintf : ℕ → List ℕ → Outcome (List ℕ)
sprintf size text = if ltb (length text) size then done text else overflow

module _ {bus : SpiBus} {Pin : Type 0} where
  abbrev pub note : Action → Board bus Pin → Board bus Pin
  note a b = record b { log = b.log ++ (a ∷ []) }

  abbrev pub toggle_power : (Pin → Pin) → Board bus Pin → Board bus Pin
  toggle_power toggle b = record b { sampler = record b.sampler { power = toggle b.sampler.power } }

  abbrev pub on_spi : Spi bus → Board bus Pin → Board bus Pin
  on_spi s b = record b { sampler = record b.sampler { spi = s } }
