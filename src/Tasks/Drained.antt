-- ===== src/Tasks/Drained.antt =====
-- socket/TaskProcessor.cpp: the queue of tasks is worked off, in order.
use na62_farm.Base.{Option, none, some, List, [], ◌∷◌}
use na62_farm.EventBuilding.Library.{Library, Config}
use na62_farm.FrameTasks.Network.{Network}
use na62_farm.FrameTasks.State.{Farm}
use na62_farm.Packets.{Task}
use na62_farm.Tasks.{Turn, execute_task}

module _ (net : Network) (lib : Library) (config : Config) where
  abbrev then_all : Option Farm → (Farm → Option Farm) → Option Farm
  then_all none rest = none
  then_all (some s) rest = rest s

  -- Every task, one after the other.
  abbrev pub all_executed : List Turn → List Task → Farm → Option Farm
  all_executed turns [] s = some s
  all_executed [] (task ∷ tasks) s = none
  all_executed (turn ∷ turns) (task ∷ tasks) s =
      then_all (execute_task net lib config turn task s) (λ s'. all_executed turns tasks s')

  abbrev pub with_empty_queue : Option Farm → Option (List Task × Farm)
  with_empty_queue none = none
  with_empty_queue (some s) = some ([], s)
