-- ===== src/Tasks.antt =====
-- socket/TaskProcessor.cpp: `thread`, the loop that takes tasks from the queue and executes them.
pub mod Drained
use na62_farm.Base.{
  ℕ, suc, Bool, true, false, not, Option, none, some, List, [], ◌∷◌, if◌then◌else◌,
}
use na62_farm.Frame.{Container}
use na62_farm.EventBuilding.Library.{Library, Config}
use na62_farm.FrameTasks.Network.{Network}
use na62_farm.FrameTasks.State.{Farm}
use na62_farm.FrameTasks.Process.{execute}
use na62_farm.Packets.{Task}

-- What one round of the loop reads: `running_`, and what `flushBurst()` answers before each frame.
pub record Turn : Type 0 where
  pub running : Bool
  pub flush_burst : ℕ → Bool

abbrev pub with_answers : (ℕ → Bool) → List Container → List (Container × Bool)
with_answers flush [] = []
with_answers flush (c ∷ l) = (c, flush 0) ∷ with_answers (λ i. flush (suc i)) l

module _ (net : Network) (lib : Library) (config : Config) where
  -- `task->execute(this)`
  abbrev pub execute_task : Turn → Task → Farm → Option Farm
  execute_task turn task =
      execute net lib config task.burst_id (with_answers turn.flush_burst task.containers)

  -- what follows a task that was handled without a fault
  abbrev pub next_round :
      Option Farm → (Farm → Option (List Task × Farm)) → Option (List Task × Farm)
  next_round none rest = none
  next_round (some s) rest = rest s

  -- The loop over its rounds, with the queue: a round with an empty queue only sleeps.
  unfoldable pub process_tasks : List Turn → List Task → Farm → Option (List Task × Farm)
  process_tasks [] queue s = some (queue, s)
  process_tasks (turn ∷ turns) [] s =
      let rest = process_tasks turns [] s in if turn.running then rest else some ([], s)
  process_tasks (turn ∷ turns) (task ∷ queue) s =
      let rest = next_round (execute_task turn task s) (λ s'. process_tasks turns queue s') in
      if turn.running then rest else some (task ∷ queue, s)
