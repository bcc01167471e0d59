-- ===== src/Packets.antt =====
-- socket/PacketHandler.cpp: `thread`, the loop that gathers received frames into tasks.
pub mod Gathered
use na62_farm.Base.{
  ℕ, ◌+◌, Bool, true, false, not, ◌&&◌, Option, none, some, List, [], ◌∷◌, ◌++◌, ltb, length,
  if◌then◌else◌,
}
use na62_farm.Base.Words.{u32}
use na62_farm.Frame.{Container}

-- What one step of the gathering loop reads: `running_`, the bytes that `GetNextFrame` returns, if
-- any (`hdr.len` of them), and `flushBurst()`.
pub record Poll : Type 0 where
  pub running : Bool
  pub received : Option (List ℕ)
  pub flush_burst : Bool

-- A `HandleFrameTask`: the frames with the burst.
pub record Task : Type 0 where
  pub containers : List Container
  pub burst_id : ℕ

-- One round of the outer loop: `running_`, what the steps read (as many as
-- `MAX_FRAME_AGGREGATION` says), and the burst after them.
pub record Round : Type 0 where
  pub running : Bool
  pub polls : List Poll
  pub current_burst_id : ℕ

-- `TasksQueue_`, `frameHandleTasksSpawned_` and `sleeps_`.
pub record Handler : Type 0 where
  pub tasks_queue : List Task
  pub tasks_spawned : ℕ
  pub sleeps : ℕ

unfoldable pub spawn : ℕ → List Container → Handler → Handler
spawn burst_id [] h = record h { sleeps = u32 (h.sleeps + 1) }
spawn burst_id (f ∷ frames) h = record h {
  tasks_queue = h.tasks_queue ++ record { containers = f ∷ frames; burst_id = burst_id } ∷ [];
  tasks_spawned = u32 (h.tasks_spawned + 1);
}

unfoldable pub after_gather : ℕ → Option (List Container) → (Handler → Handler) → Handler → Handler
after_gather burst_id none rest h = h
after_gather burst_id (some frames) rest h = rest (spawn burst_id frames h)

module _ (mtu : ℕ) where
  unfoldable pub store_frame : Bool → Option (List ℕ) → List Container → List Container
  store_frame flush none frames = frames
  store_frame flush (some bytes) frames =
      if flush
      then frames
      else if ltb mtu (length bytes)
      then frames
      else frames ++ record { data_bytes = bytes; length = length bytes; owned = true } ∷ []

  -- The inner loop; `none` is `goto finish`.
  unfoldable pub gather : List Poll → List Container → Option (List Container)
  gather [] frames = some frames
  gather (p ∷ ps) frames =
      let rest = gather ps (store_frame p.flush_burst p.received frames) in
      if not p.running then none else rest

  -- `thread`, over the rounds that it runs.
  unfoldable pub thread : List Round → Handler → Handler
  thread [] h = h
  thread (r ∷ rs) h =
      if r.running
      then after_gather r.current_burst_id (gather r.polls []) (λ h'. thread rs h') h
      else h
