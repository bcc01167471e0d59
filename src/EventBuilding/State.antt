-- ===== src/EventBuilding/State.antt =====
-- The static members of `L1Builder` and `L2Builder`, the queue of `StorageHandler`, and actions on
-- them. Counters are 64-bit and wrap; a histogram has 101 rows and columns.
use na62_farm.Base.{ℕ, ◌+◌, Bool, ◌&&◌, List, ◌∷◌, leb, ◌==◌, if◌then◌else◌}
use na62_farm.Base.Words.{u64}
use na62_farm.EventBuilding.Library.{Event, Call, EventHdr, Library}

abbrev pub Histogram : Type 0
Histogram = ℕ → ℕ → ℕ

-- `…TimeCumulative_`, `…TimeMax_` and `…TimeVsEvtNumber_`
pub record Timing : Type 0 where
  pub cumulative : ℕ
  pub max_time : ℕ
  pub vs_event_number : Histogram

pub record State : Type 0 where
  pub calls : List Call
  pub l1_requests : ℕ
  pub l0_building : Timing
  pub l1_processing : Timing
  pub l1_building : Timing
  pub l2_processing : Timing
  pub serialization_vs_event_number : Histogram
  pub data_queue : List EventHdr

abbrev pub M : Type 0 → Type 0
M A = State → A × State

infixl 5 ◌>>=◌ ◌>>◌
abbrev pub ◌>>=◌ : {A B : Type 0} → M A → (A → M B) → M B
◌>>=◌ m f s = f (m s).0 (m s).1

abbrev pub ◌>>◌ : {B : Type 0} → M (Unit {0}) → M B → M B
◌>>◌ m n s = n (m s).1

abbrev pub pure : {A : Type 0} → A → M A
pure a s = (a, s)

abbrev pub skip : M Unit
skip s = (tt, s)

-- A call of the library.
abbrev pub call : Call → M Unit
call c s = (tt, record s { calls = c ∷ s.calls })

-- What the library returns at this point.
abbrev pub ask : {A : Type 0} → (List Call → A) → M A
ask f s = (f s.calls, s)

abbrev pub modify : (State → State) → M Unit
modify f s = (tt, f s)

-- `if (b) m else n`, and `if (b) m`
abbrev pub choose : {A : Type 0} → Bool → M A → M A → M A
choose b m n s = if b then m s else n s

abbrev pub when : Bool → M Unit → M Unit
when b m = choose b m skip

-- `if (index >= 0x64) index = 0x64;`
unfoldable pub clamp_index : ℕ → ℕ
clamp_index i = if leb 0x64 i then 0x64 else i

-- `(uint) (event->getTimestamp() * 25e-8)`, clamped
abbrev pub timestamp_index : Library → List Call → Event → ℕ
timestamp_index lib h e = clamp_index (lib.seconds_index (lib.timestamp h e))

-- `histogram[row][column].fetch_add(1)`
unfoldable pub count_at : ℕ → ℕ → Histogram → Histogram
count_at row column h r c = if (row == r) && (column == c) then u64 (h r c + 1) else h r c

-- `cumulative.fetch_add(time)`, and the larger of the maximum and the time.
unfoldable pub add_time : ℕ → Timing → Timing
add_time time t = record t {
  cumulative = u64 (t.cumulative + time);
  max_time = if leb t.max_time time then time else t.max_time;
}

-- The two loops of a `Reset…VsEvtNumber`.
unfoldable pub reset_histogram : Histogram → Histogram
reset_histogram h r c = if leb r 0x64 && leb c 0x64 then 0 else h r c
