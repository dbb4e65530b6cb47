-- ===== src/Tests/Rounds.antt =====
-- Both tasks on concrete packets.
use rtos_hm_board.Prelude.{[], ◌∷◌, Bool, true, not}
use rtos_hm_board.Clock.{tick}
use rtos_hm_board.Sampling.{sample}
use rtos_hm_board.CspTask
use rtos_hm_board.CspTask.{Event}
use rtos_hm_board.CspTask.Dispatch.{event}
use rtos_hm_board.MainTask.{echo_back}
use rtos_hm_board.MainTask.State.{Board, reply}
use rtos_hm_board.MainTask.System.{System}
use rtos_hm_board.Tests.Chip.{bus}
use rtos_hm_board.Tests.Transform.{readings}
use rtos_hm_board.Tests.Tasks.{queue, packet, board}

abbrev start : System queue bus Bool
start = record { queue = []; board = board; accepted = [] }

-- An echo is asked for and given; then the spectrum is asked for.
abbrev echo : Event
echo = event CspTask.echo_back packet

abbrev spectrum : Event
spectrum = event CspTask.send_fft packet

abbrev asked : System queue bus Bool
asked = record { queue = echo ∷ []; board = board; accepted = echo ∷ [] }

abbrev echoed : Board bus Bool
echoed = record board {
  sampler = record board.sampler { power = true };
  log = reply 10 40 19 (1 ∷ 2 ∷ []) 1000 ∷ [];
}

abbrev answered : System queue bus Bool
answered = record asked { queue = []; board = echoed }

abbrev again : System queue bus Bool
again = record { queue = spectrum ∷ []; board = echoed; accepted = echo ∷ spectrum ∷ [] }

-- Then both timers interrupt.
abbrev sampled : System queue bus Bool
sampled = record again {
  board = record again.board { sampler = sample bus not readings again.board.sampler };
}

abbrev ticked : System queue bus Bool
ticked = record sampled { board = record sampled.board { timers = tick sampled.board.timers } }
