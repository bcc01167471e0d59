-- ===== src/Burst.antt =====
-- na62-farm.cpp: `onBurstFinished`, which drops the events that are still unfinished at the end of a
-- burst, and sends and resets the statistics of the times.
pub mod Cleanup
pub mod Times
pub mod Finished
pub mod Fresh
pub mod Dropping
pub mod Justified
use na62_farm.Base.{
  ℕ, zero, suc, ◌+◌, Bool, true, false, Option, none, some, List, [], ◌∷◌, ◌++◌, ltb, if◌then◌else◌,
}
use na62_farm.Base.Words.{u32}
use na62_farm.EventBuilding.Library.{Event, Call, Library}
use na62_farm.EventBuilding.State.{State, Histogram, M, ◌>>=◌, ◌>>◌, pure, call, when}
use na62_farm.EventBuilding.Getters.{
  get_l0_building_time_vs_evt_number, get_l1_building_time_vs_evt_number,
  get_l1_processing_time_vs_evt_number, get_l2_processing_time_vs_evt_number,
}
use na62_farm.EventBuilding.Storage.{send_event}
use na62_farm.EventBuilding.Resets.{
  reset_l0_building_time_vs_evt_number, reset_l0_building_time_cumulative,
  reset_l0_building_time_max, reset_l1_building_time_vs_evt_number,
  reset_l1_building_time_cumulative, reset_l1_building_time_max,
  reset_l1_processing_time_vs_evt_number, reset_l1_processing_time_cumulative,
  reset_l1_processing_time_max, reset_l2_processing_time_vs_evt_number,
  reset_l2_processing_time_cumulative, reset_l2_processing_time_max,
  reset_serialization_time_vs_evt_number,
}

-- What the getters of an event of the pool return at the end of the burst.
pub record Pooled : Type 0 where
  pub event : Event
  pub is_last_event_of_burst : Bool
  pub is_unfinished : Bool
  pub is_l1_requested : Bool
  pub is_mep_header_corrupted : Bool

-- The state with `incomplete_events` and `incomplete_events_with_l1_request_sent`.
pub record Dropped : Type 0 where
  pub incomplete : ℕ
  pub with_l1_request : ℕ
  pub builders : State

module _ (lib : Library) where
  -- what is done to an unfinished event
  unfoldable pub drop_event : Pooled → M Unit
  drop_event p = do
    when p.is_last_event_of_burst (λ s. (tt, (send_event lib p.event s).1))
    call (Call.update_missing_events_stats p.event)
    when p.is_mep_header_corrupted (call (Call.sum_l1_corrupted_header 1))
    call (Call.free_event p.event)

  -- the body of the loop over the pool; `none` is a slot without an event
  unfoldable pub clean_slot : Option Pooled → Dropped → Dropped
  clean_slot none d = d
  clean_slot (some p) d =
      if p.is_unfinished
      then record {
        incomplete = u32 (d.incomplete + 1);
        with_l1_request =
            if p.is_l1_requested then u32 (d.with_l1_request + 1) else d.with_l1_request;
        builders = (drop_event p d.builders).1;
      }
      else d

  -- the iterations of `parallel_for`, in the order in which they run; no two of them have the same
  -- event, and each is one step here
  unfoldable pub clean_slots : List (Option Pooled) → Dropped → Dropped
  clean_slots [] d = d
  clean_slots (o ∷ l) d = clean_slots l (clean_slot o d)

-- The entries `timeId,tsId,value;` of one row: a value is shown where the tested one is positive.
unfoldable pub row_entries : Histogram → Histogram → ℕ → ℕ → List (ℕ × ℕ × ℕ)
row_entries tested shown time zero = []
row_entries tested shown time (suc ts) =
    let before = row_entries tested shown time ts in
    if ltb 0 (tested time ts) then before ++ (time, ts, shown time ts) ∷ [] else before

unfoldable pub entries : Histogram → Histogram → ℕ → List (ℕ × ℕ × ℕ)
entries tested shown zero = []
entries tested shown (suc time) =
    entries tested shown time ++ row_entries tested shown time (0x64 + 1)

-- The strings that are sent, as their entries.
pub record Report : Type 0 where
  pub l0_building : List (ℕ × ℕ × ℕ)
  pub l1_building : List (ℕ × ℕ × ℕ)
  pub l1_processing : List (ℕ × ℕ × ℕ)
  pub l2_processing : List (ℕ × ℕ × ℕ)
  pub serialization : List (ℕ × ℕ × ℕ)

unfoldable pub report_times : State → Report
report_times s =
    let shown = λ (h : Histogram). entries h h (0x64 + 1) in
    record {
      l0_building = shown (get_l0_building_time_vs_evt_number s);
      l1_building = shown (get_l1_building_time_vs_evt_number s);
      l1_processing = shown (get_l1_processing_time_vs_evt_number s);
      l2_processing = shown (get_l2_processing_time_vs_evt_number s);
      serialization =
          entries (get_l2_processing_time_vs_evt_number s) (get_l2_processing_time_vs_evt_number s)
            (0x64 + 1);
    }

unfoldable pub reset_times : State → State
reset_times s =
    let a = reset_l0_building_time_vs_evt_number s in
    let b = reset_l1_building_time_vs_evt_number a in
    let c = reset_l1_processing_time_vs_evt_number b in
    let d = reset_l2_processing_time_vs_evt_number c in
    let e = reset_serialization_time_vs_evt_number d in
    let f = reset_l0_building_time_cumulative e in
    let g = reset_l0_building_time_max f in
    let h = reset_l1_processing_time_cumulative g in
    let i = reset_l1_processing_time_max h in
    let j = reset_l1_building_time_cumulative i in
    let k = reset_l1_building_time_max j in
    let l = reset_l2_processing_time_cumulative k in reset_l2_processing_time_max l

-- The part of `onBurstFinished` under MEASURE_TIME.
unfoldable pub send_times : State → Report × State
send_times s = (report_times s, reset_times s)
