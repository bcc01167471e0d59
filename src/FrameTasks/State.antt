-- ===== src/FrameTasks/State.antt =====
-- The static members of `HandleFrameTask` with the parts of the program that a frame changes, and
-- actions on them that may throw.
use na62_farm.Base.{ℕ, ◌+◌, Option, none, some, List, ltb, if◌then◌else◌, Bool}
use na62_farm.Base.Words.{u64}
use na62_farm.Frame.{Container}
use na62_farm.Fragments.Slots.{Store, update}
use na62_farm.EventBuilding.State.{M}
use na62_farm.EventBuilding.State

-- `MEPsReceivedBySourceNum_` with `BytesReceivedBySourceNum_`, or the pair for L1.
pub record Received : Type 0 where
  pub meps : ℕ → ℕ
  pub bytes : ℕ → ℕ

-- `freed` lists the buffers that `free` was called on, `dumped` those passed to `dumpPacket`, and
-- `sent` those passed to `AsyncSendFrame`, newest first.
pub record Farm : Type 0 where
  pub builders : State.State
  pub store : Store
  pub l0_received : Received
  pub l1_received : Received
  pub freed : List Container
  pub dumped : List Container
  pub sent : List Container

pub data Outcome : Type 0 where
  finished : Outcome
  thrown : Outcome

abbrev pub Action : Type 0
Action = Farm → Outcome × Farm

unfoldable pub finish : Action
finish s = (Outcome.finished, s)

-- what follows an action that did not throw
abbrev pub unless_thrown : Outcome × Farm → Action → Outcome × Farm
unless_thrown (Outcome.finished, s) n = n s
unless_thrown (Outcome.thrown, s) n = (Outcome.thrown, s)

unfoldable pub and_then : Action → Action → Action
and_then m n s = unless_thrown (m s) n

unfoldable pub with_value : {A : Type 0} → Option A → (A → Action) → Action
with_value none m s = (Outcome.thrown, s)
with_value (some a) m s = m a s

unfoldable pub choose : Bool → Action → Action → Action
choose b m n s = if b then m s else n s

unfoldable pub modify : (Farm → Farm) → Action
modify f s = (Outcome.finished, f s)

unfoldable pub on_builders : M Unit → Action
on_builders m s = (Outcome.finished, record s { builders = (m s.builders).1 })

-- `…MEPsReceivedBySourceNum_[n].fetch_add(1)` and `…BytesReceivedBySourceNum_[n].fetch_add(b)`
unfoldable pub count_mep : ℕ → ℕ → Received → Received
count_mep n b r = record {
  meps = update r.meps n (u64 (r.meps n + 1));
  bytes = update r.bytes n (u64 (r.bytes n + b));
}

-- `resetCounters`, for one pair of arrays of the given size.
unfoldable pub reset_counters : ℕ → Received → Received
reset_counters size r = record {
  meps = λ i. if ltb i size then 0 else r.meps i;
  bytes = λ i. if ltb i size then 0 else r.bytes i;
}

-- `initialize`, for the numbers of sources of the two levels: new arrays, which are reset. The ports
-- and the own address that it reads are part of `Network`.
unfoldable pub initialize : ℕ → ℕ → Farm → Farm
initialize highest_source_num highest_l1_source_num s = record s {
  l0_received = reset_counters highest_source_num s.l0_received;
  l1_received = reset_counters highest_l1_source_num s.l1_received;
}

abbrev pub get_meps_received_by_source_num : Farm → ℕ → ℕ
get_meps_received_by_source_num s source_num = s.l0_received.meps source_num

abbrev pub get_bytes_received_by_source_num : Farm → ℕ → ℕ
get_bytes_received_by_source_num s source_num = s.l0_received.bytes source_num

abbrev pub get_l1_meps_received_by_source_num : Farm → ℕ → ℕ
get_l1_meps_received_by_source_num s source_num = s.l1_received.meps source_num

abbrev pub get_l1_bytes_received_by_source_num : Farm → ℕ → ℕ
get_l1_bytes_received_by_source_num s source_num = s.l1_received.bytes source_num
