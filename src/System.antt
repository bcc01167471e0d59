-- ===== src/System.antt =====
-- The threads of the farm on one state: socket/PacketHandler.cpp, which pushes tasks,
-- socket/TaskProcessor.cpp, whose threads pop and execute them, SharedMemory/QueueReceiver.cpp, and
-- the end of a burst in na62-farm.cpp, as interleaved steps. A frame, an answer and the end of a burst
-- are handled in one step each, which no lock of the source ensures; Serial lets their calls mix. No
-- thread is stopped.
pub mod Queue
pub mod Safety
pub mod Serial
pub mod Rounds
pub mod Progress
pub mod Storage
use na62_farm.Base.{ℕ, ◌+◌, ◌≡◌, Bool, false, Option, none, some, List, [], ◌∷◌, ◌++◌}
use na62_farm.Base.Words.{u32}
use na62_farm.Frame.{Container}
use na62_farm.EventBuilding.Library.{TriggerMessage, Library, Config}
use na62_farm.EventBuilding.QueueReceiver.{Receiver, receive}
use na62_farm.FrameTasks.Network.{Network}
use na62_farm.FrameTasks.State.{Farm}
use na62_farm.FrameTasks.Process.{execute}
use na62_farm.Packets.{Poll, Task, gather}
use na62_farm.Burst.Finished.{EndOfBurst, on_burst_finished}

-- `TasksQueue_`, `queuedTasksNum_`, and for each task processor the task that it works on, if any,
-- with the frames that are left.
pub record Program : Type 0 where
  pub farm : Farm
  pub highest_burst_id_received : ℕ
  pub event_received_per_burst : ℕ
  pub tasks_queue : List Task
  pub queued_tasks_num : ℕ
  pub workers : List (Option Task)

abbrev pub receiver_of : Program → Receiver
receiver_of p = record {
  highest_burst_id_received = p.highest_burst_id_received;
  event_received_per_burst = p.event_received_per_burst;
  builders = p.farm.builders;
}

-- `TasksQueue_.push(new HandleFrameTask(frames, burst))`
unfoldable pub push_task : Task → Program → Program
push_task t p = record p {
  tasks_queue = p.tasks_queue ++ t ∷ [];
  queued_tasks_num = u32 (p.queued_tasks_num + 1);
}

-- `try_pop` by the processor between the two lists of others, with the queue that is left
unfoldable pub pop_task :
    List (Option Task) → Task → List (Option Task) → List Task → Program → Program
pop_task before t after queue p = record p {
  tasks_queue = queue;
  workers = before ++ some t ∷ after;
}

-- one frame handled, with the farm after it and the frames that are left
unfoldable pub frame_done :
    List (Option Task) → Task → List (Option Task) → List Container → Farm → Program → Program
frame_done before t after rest farm p = record p {
  farm = farm;
  workers = before ++ some (record t { containers = rest }) ∷ after;
}

-- `delete task`
unfoldable pub delete_task : List (Option Task) → List (Option Task) → Program → Program
delete_task before after p = record p {
  queued_tasks_num = u32 (p.queued_tasks_num + 4294967295);
  workers = before ++ none ∷ after;
}

-- what the thread of `QueueReceiver` leaves behind
unfoldable pub take_answer : Receiver → Program → Program
take_answer r p = record p {
  farm = record p.farm { builders = r.builders };
  highest_burst_id_received = r.highest_burst_id_received;
  event_received_per_burst = r.event_received_per_burst;
}

module _ (mtu : ℕ) (net : Network) (lib : Library) (config : Config) where
  pub data Step (p : Program) : Program → Type 0 where
    gathered :
        (polls : List Poll) (c : Container) (frames : List Container) (burst_id : ℕ)
        → gather mtu polls [] ≡ some (c ∷ frames)
        → Step p (push_task (record { containers = c ∷ frames; burst_id = burst_id }) p)
    popped :
        (before after : List (Option Task)) (t : Task) (queue : List Task)
        → p.workers ≡ before ++ none ∷ after
        → p.tasks_queue ≡ t ∷ queue
        → Step p (pop_task before t after queue p)
    handled :
        (before after : List (Option Task)) (t : Task) (c : Container) (rest : List Container)
        (flush_burst : Bool) (farm : Farm)
        → p.workers ≡ before ++ some t ∷ after
        → t.containers ≡ c ∷ rest
        → execute net lib config t.burst_id ((c, flush_burst) ∷ []) p.farm ≡ some farm
        → Step p (frame_done before t after rest farm p)
    deleted :
        (before after : List (Option Task)) (t : Task)
        → p.workers ≡ before ++ some t ∷ after
        → t.containers ≡ []
        → Step p (delete_task before after p)
    answered :
        (message : TriggerMessage) (r : Receiver)
        → receive lib config message (receiver_of p) ≡ some r
        → Step p (take_answer r p)
    burst_finished :
        (end : EndOfBurst)
        → (on_burst_finished net lib config end p.farm).is_terminated ≡ false
        → Step p (record p { farm = (on_burst_finished net lib config end p.farm).farm })

  -- The steps from one state to another.
  pub data Reach (p : Program) : Program → Type 0 where
    start : Reach p p
    later : {q r : Program} → Reach p q → Step q r → Reach p r
