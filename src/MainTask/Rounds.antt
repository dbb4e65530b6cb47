-- ===== src/MainTask/Rounds.antt =====
-- The rounds of the loop of mainTask.c that empty its queue.
use rtos_hm_board.Prelude.{ℕ, zero, suc, List, Bool}
use rtos_hm_board.SpiMemory.{FloatOps}
use rtos_hm_board.SpiMemory.Bus.{SpiBus}
use rtos_hm_board.CspTask.{EventQueue, QueueLaws}
use rtos_hm_board.MainTask.{main_task_round}
use rtos_hm_board.MainTask.State.{Wait, Board, Action, Outcome, done, ◌>>=◌}
use rtos_hm_board.MainTask.System.{System}

module _ {q : EventQueue} (laws : QueueLaws q) {bus : SpiBus} (f : FloatOps) {Pin : Type 0}
    (toggle : Pin → Pin) (accepted_by : List Action → Bool) (wait : Wait) (temp : ℕ) where
  -- `n` rounds of the loop of `mainTask`.
  pub main_rounds : ℕ → q.Queue × Board bus Pin → Outcome (q.Queue × Board bus Pin)
  main_rounds zero t = done t
  main_rounds (suc n) t =
      main_task_round f toggle accepted_by q wait temp t >>= λ t'. main_rounds n t'
