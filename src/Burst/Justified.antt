-- ===== src/Burst/Justified.antt =====
-- na62-farm.cpp: what the end of a burst writes.
use na62_farm.Base.{ℕ, Bool, Option, none, some, List, [], ◌∷◌, inl, inr, Bool-cases, arith}
use na62_farm.EventBuilding.Library.{Library, Config}
use na62_farm.EventBuilding.State.{State, when}
use na62_farm.EventBuilding.Storage.{send_event}
use na62_farm.EventBuilding.Justified.{IsJustified, dropped-IsJustified}
use na62_farm.FrameTasks.Network.{Network}
use na62_farm.FrameTasks.State.{Farm}
use na62_farm.Burst.Times.{send_times-resets}
use na62_farm.Burst.Finished.{
  EndOfBurst, check_trigger_queue, clear_detector_statistics, report_and_reset_times,
  reset_all_counters, drop_unfinished, on_burst_finished,
}
use na62_farm.Burst.{Pooled, Dropped, drop_event, clean_slot, clean_slots}

module _ (lib : Library) (config : Config) where
  drop_event-IsJustified :
      (p : Pooled) (s : State)
      → IsJustified lib config s.calls
      → IsJustified lib config (drop_event lib p s).1.calls
  unfolding drop_event send_event
  drop_event-IsJustified p s h = elim (Bool-cases p.is_last_event_of_burst) [
    | inl last ↦ rw (last, drop_event) (ground (arith, h))
    | inr other ↦
        let k = dropped-IsJustified lib config p.event s.calls h in
        rw (other, drop_event) (ground (arith, k))
  ]

  clean_slots-IsJustified :
      (l : List (Option Pooled)) (d : Dropped)
      → IsJustified lib config d.builders.calls
      → IsJustified lib config (clean_slots lib l d).builders.calls
  unfolding clean_slots clean_slot drop_event
  clean_slots-IsJustified [] d h = h
  clean_slots-IsJustified (none ∷ l) d h = clean_slots-IsJustified l d h
  clean_slots-IsJustified (some p ∷ l) d h = elim (Bool-cases p.is_unfinished) [
    | inl e ↦
        rw (e, clean_slots) (clean_slots-IsJustified l _ (drop_event-IsJustified p d.builders h))
    | inr e ↦ rw (e, clean_slots) (clean_slots-IsJustified l d h)
  ]

-- What is called around the clean-up writes no event.
check_trigger_queue-IsJustified :
    (lib : Library) (config : Config) (b : Bool) (n : ℕ) (s : State)
    → IsJustified lib config s.calls
    → IsJustified lib config (when b (check_trigger_queue n) s).1.calls
unfolding check_trigger_queue
check_trigger_queue-IsJustified lib config b n s h = ground arith

module _ (net : Network) (lib : Library) (config : Config) (end : EndOfBurst) where
  drop_unfinished-IsJustified :
      (s : State)
      → IsJustified lib config s.calls
      → IsJustified lib config (drop_unfinished net lib config end s).builders.calls
  unfolding drop_unfinished
  drop_unfinished-IsJustified s h =
      clean_slots-IsJustified lib config end.pool _
        (check_trigger_queue-IsJustified lib config config.use_shared_memory end.waiting_for_l1 s h)

  after_clean_up-IsJustified :
      (s : State) (t : Farm)
      → IsJustified lib config s.calls
      → let r = (report_and_reset_times config.measure_time (clear_detector_statistics s).1).1 in
        IsJustified lib config (reset_all_counters net lib config r t).builders.calls
  unfolding reset_all_counters report_and_reset_times clear_detector_statistics
  after_clean_up-IsJustified s t h = ground (
    arith,
    send_times-resets (unfold clear_detector_statistics in (clear_detector_statistics s).1),
  )

  -- The end of a burst writes no event but those that it drops.
  pub on_burst_finished-IsJustified :
      (s : Farm)
      → IsJustified lib config s.builders.calls
      → IsJustified lib config (on_burst_finished net lib config end s).farm.builders.calls
  unfolding on_burst_finished
  on_burst_finished-IsJustified s h =
      after_clean_up-IsJustified _ s (drop_unfinished-IsJustified s.builders h)
