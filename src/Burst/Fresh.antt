-- ===== src/Burst/Fresh.antt =====
-- na62-farm.cpp: what the next burst starts from.
use na62_farm.Base.{ℕ, ◌<◌, ◌≡◌, refl, Bool, true, List, arith}
use na62_farm.EventBuilding.Library.{EventHdr, Library, Config}
use na62_farm.EventBuilding.State.{State, when}
use na62_farm.EventBuilding.Accounting.{Accounts}
use na62_farm.FrameTasks.Network.{Network}
use na62_farm.FrameTasks.State.{Farm, reset_counters}
use na62_farm.Burst.Cleanup.{clean_slots-Accounts}
use na62_farm.Burst.Times.{IsReset, IsEmpty, send_times-resets}
use na62_farm.Burst.Finished.{
  EndOfBurst, check_trigger_queue, clear_detector_statistics, report_and_reset_times,
  reset_all_counters, drop_unfinished, on_burst_finished,
}

-- Calls of the library that neither serialize an event nor request data.
check_trigger_queue-Accounts :
    (lib : Library) (taken : List EventHdr) (b : Bool) (n : ℕ) (s : State)
    → Accounts lib taken s
    → Accounts lib taken (when b (check_trigger_queue n) s).1
unfolding check_trigger_queue
check_trigger_queue-Accounts lib taken b n s h = ground arith

report_and_reset_times-Accounts :
    (lib : Library) (taken : List EventHdr) (b : Bool) (s : State)
    → Accounts lib taken s
    → Accounts lib taken (report_and_reset_times b s).1
unfolding report_and_reset_times
report_and_reset_times-Accounts lib taken b s h =
    let r = send_times-resets s in ground (arith, r.5, r.6, r.7)

module _ (net : Network) (lib : Library) (config : Config) (end : EndOfBurst) where
  drop_unfinished-Accounts :
      (taken : List EventHdr) (s : State)
      → Accounts lib taken s
      → Accounts lib taken (drop_unfinished net lib config end s).builders
  unfolding drop_unfinished
  drop_unfinished-Accounts taken s h =
      clean_slots-Accounts lib taken end.pool _
        (check_trigger_queue-Accounts lib taken config.use_shared_memory end.waiting_for_l1 s h)

  reset_all_counters-Accounts :
      (taken : List EventHdr) (builders : State) (s : Farm)
      → Accounts lib taken builders
      → Accounts lib taken (reset_all_counters net lib config builders s).builders
  unfolding reset_all_counters
  reset_all_counters-Accounts taken builders s h = ground arith

  clear_detector_statistics-Accounts :
      (taken : List EventHdr) (s : State)
      → Accounts lib taken s
      → Accounts lib taken (clear_detector_statistics s).1
  unfolding clear_detector_statistics
  clear_detector_statistics-Accounts taken s h = ground arith

  -- The end of a burst keeps the accounts: the queue of the storage handler gets the header of each
  -- event that is serialized, and the counter of L1 requests is not touched.
  pub on_burst_finished-Accounts :
      (taken : List EventHdr) (s : Farm)
      → Accounts lib taken s.builders
      → Accounts lib taken (on_burst_finished net lib config end s).farm.builders
  unfolding on_burst_finished
  on_burst_finished-Accounts taken s h = reset_all_counters-Accounts taken _ s (
      report_and_reset_times-Accounts lib taken config.measure_time _
        (clear_detector_statistics-Accounts taken _ (drop_unfinished-Accounts taken s.builders h)))

  -- The end of a burst touches no buffer and no fragment.
  pub on_burst_finished-buffers :
      (s : Farm)
      → let t = (on_burst_finished net lib config end s).farm in
        (t.store ≡ s.store) × (t.freed ≡ s.freed) × (t.dumped ≡ s.dumped) × (t.sent ≡ s.sent)
  unfolding on_burst_finished reset_all_counters
  on_burst_finished-buffers s = (refl, refl, refl, refl)

  -- In a build with MEASURE_TIME the next burst starts with all its counters at zero: for every
  -- source of both levels the counts of MEPs and of bytes are zero, and so are the times and
  -- histograms of the builders.
  pub on_burst_finished-fresh :
      (s : Farm)
      → config.measure_time ≡ true
      → let t = (on_burst_finished net lib config end s).farm in
        ((n : ℕ)
          → n < net.number_of_l0_sources
          → (t.l0_received.meps n ≡ 0) × (t.l0_received.bytes n ≡ 0))
        × ((n : ℕ)
            → n < net.number_of_l1_sources
            → (t.l1_received.meps n ≡ 0) × (t.l1_received.bytes n ≡ 0))
        × IsReset t.builders.l0_building
        × IsReset t.builders.l1_processing
        × IsReset t.builders.l1_building
        × IsReset t.builders.l2_processing
        × IsEmpty t.builders.serialization_vs_event_number
  unfolding on_burst_finished reset_all_counters report_and_reset_times reset_counters
      drop_unfinished
  on_burst_finished-fresh s measured =
      let d =
        (clear_detector_statistics (drop_unfinished net lib config end s.builders).builders).1 in
      let r = send_times-resets d in
      (
        λ n inside. ground arith,
        λ n inside. ground arith,
        rw measured r.0,
        rw measured r.1,
        rw measured r.2,
        rw measured r.3,
        rw measured r.4,
      )
