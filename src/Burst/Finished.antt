-- ===== src/Burst/Finished.antt =====
-- na62-farm.cpp: `onBurstFinished` as a whole, on the state that the received frames change. The
-- strings that the library makes of its own statistics are sent on the way and not kept here.
use na62_farm.Base.{ℕ, ◌*◌, ◌/◌, Bool, Option, none, some, List, ltb, if◌then◌else◌}
use na62_farm.EventBuilding.Library.{Call, Library, Config}
use na62_farm.EventBuilding.State.{State, M, ◌>>◌, call, when}
use na62_farm.FrameTasks.Network.{Network}
use na62_farm.FrameTasks.State.{Farm, reset_counters}
use na62_farm.Burst.{Pooled, Dropped, clean_slots, Report, send_times}

-- What it reads: the slots of the event pool, in the order in which the iterations of `parallel_for`
-- over them run, `getTriggerQueue()->get_num_msg()`, the second number
-- of /proc/self/statm, and `sysconf(_SC_PAGE_SIZE)`.
pub record EndOfBurst : Type 0 where
  pub pool : List (Option Pooled)
  pub waiting_for_l1 : ℕ
  pub resident : ℕ
  pub page_size : ℕ

-- `times` is what is sent of the times, if anything, and `is_terminated` a call of `exit(-1)`.
pub record Finished : Type 0 where
  pub farm : Farm
  pub incomplete_events : ℕ
  pub incomplete_events_with_l1_request_sent : ℕ
  pub times : Option Report
  pub is_terminated : Bool

-- The part under USE_SHAREDMEMORY.
unfoldable pub check_trigger_queue : ℕ → M Unit
check_trigger_queue waiting_for_l1 = do
  when (ltb 0 waiting_for_l1) (call Call.clear_trigger_queue)
  call Call.check_trigger_free_queue

unfoldable pub clear_detector_statistics : M Unit
clear_detector_statistics = do
  call Call.clear_l0_detector_statistics
  call Call.clear_l1_detector_statistics

-- The part under MEASURE_TIME.
unfoldable pub report_and_reset_times : Bool → State → Option Report × State
report_and_reset_times measure_time s =
    let (report, s') = send_times s in if measure_time then (some report, s') else (none, s)

-- `rss > 30000000`, in kilobytes
unfoldable pub is_leaking : ℕ → ℕ → Bool
is_leaking resident page_size = ltb 30000000 (resident * (page_size / 1024))

module _ (net : Network) (lib : Library) (config : Config) where
  -- `HltStatistics::resetCounters`, `HandleFrameTask::resetCounters` and `Event::resetCounters`
  unfoldable pub reset_all_counters : State → Farm → Farm
  reset_all_counters builders s = record s {
    builders = (call Call.reset_event_counters (call Call.reset_hlt_statistics builders).1).1;
    l0_received = reset_counters net.number_of_l0_sources s.l0_received;
    l1_received = reset_counters net.number_of_l1_sources s.l1_received;
  }

  unfoldable pub drop_unfinished : EndOfBurst → State → Dropped
  drop_unfinished end s = clean_slots lib end.pool (record {
    incomplete = 0;
    with_l1_request = 0;
    builders = (when config.use_shared_memory (check_trigger_queue end.waiting_for_l1) s).1;
  })

  unfoldable pub on_burst_finished : EndOfBurst → Farm → Finished
  on_burst_finished end s =
      let d = drop_unfinished end s.builders in
      let (report, builders) =
        report_and_reset_times config.measure_time (clear_detector_statistics d.builders).1 in
      record {
        farm = reset_all_counters builders s;
        incomplete_events = d.incomplete;
        incomplete_events_with_l1_request_sent = d.with_l1_request;
        times = report;
        is_terminated = is_leaking end.resident end.page_size;
      }
