-- ===== src/Burst/Times.antt =====
-- na62-farm.cpp: the statistics of the times at the end of a burst.
use na62_farm.Base.{ℕ, ◌≤◌, ◌≡◌, refl, arith}
use na62_farm.EventBuilding.State.{State, Histogram, Timing, reset_histogram}
use na62_farm.EventBuilding.Resets.{
  reset_vs_event_number, reset_l0_building_time_vs_evt_number, reset_l0_building_time_cumulative,
  reset_l0_building_time_max, reset_l1_building_time_vs_evt_number,
  reset_l1_building_time_cumulative, reset_l1_building_time_max,
  reset_l1_processing_time_vs_evt_number, reset_l1_processing_time_cumulative,
  reset_l1_processing_time_max, reset_l2_processing_time_vs_evt_number,
  reset_l2_processing_time_cumulative, reset_l2_processing_time_max,
  reset_serialization_time_vs_evt_number,
}
use na62_farm.Burst.{report_times, reset_times, send_times}

-- All 101 times 101 cells are zero.
abbrev pub IsEmpty : Histogram → Type 0
IsEmpty h = (r c : ℕ) → r ≤ 100 → c ≤ 100 → h r c ≡ 0

pub record IsReset (t : Timing) : Type 0 where
  pub cumulative_zero : t.cumulative ≡ 0
  pub max_zero : t.max_time ≡ 0
  pub cells_zero : IsEmpty t.vs_event_number

reset_histogram-IsEmpty : (h : Histogram) → IsEmpty (reset_histogram h)
unfolding reset_histogram
reset_histogram-IsEmpty h r c a b = ground arith

-- After the statistics were sent at the end of a burst, the four pairs of cumulative and maximal
-- times are zero, and so are all cells of the five histograms; the calls made, the queue of the
-- storage handler and the counter of L1 requests are as before.
pub send_times-resets :
    (s : State)
    → IsReset (send_times s).1.l0_building
      × IsReset (send_times s).1.l1_processing
      × IsReset (send_times s).1.l1_building
      × IsReset (send_times s).1.l2_processing
      × IsEmpty (send_times s).1.serialization_vs_event_number
      × ((send_times s).1.calls ≡ s.calls)
      × ((send_times s).1.data_queue ≡ s.data_queue)
      × ((send_times s).1.l1_requests ≡ s.l1_requests)
unfolding send_times reset_times reset_vs_event_number reset_l0_building_time_vs_evt_number
    reset_l0_building_time_cumulative reset_l0_building_time_max
    reset_l1_building_time_vs_evt_number reset_l1_building_time_cumulative
    reset_l1_building_time_max reset_l1_processing_time_vs_evt_number
    reset_l1_processing_time_cumulative reset_l1_processing_time_max
    reset_l2_processing_time_vs_evt_number reset_l2_processing_time_cumulative
    reset_l2_processing_time_max reset_serialization_time_vs_evt_number
send_times-resets s = (
  record { cumulative_zero = refl; max_zero = refl; cells_zero = reset_histogram-IsEmpty _ },
  record { cumulative_zero = refl; max_zero = refl; cells_zero = reset_histogram-IsEmpty _ },
  record { cumulative_zero = refl; max_zero = refl; cells_zero = reset_histogram-IsEmpty _ },
  record { cumulative_zero = refl; max_zero = refl; cells_zero = reset_histogram-IsEmpty _ },
  reset_histogram-IsEmpty _,
  refl,
  refl,
  refl,
)

-- The statistics sent for the serialization times are those of the L2 processing times, whatever was
-- measured: two states that differ in the serialization times only send the same.
pub send_times-serialization_lost :
    (s : State) (h : Histogram)
    → ((send_times s).0.serialization ≡ (send_times s).0.l2_processing)
      × ((send_times (record s { serialization_vs_event_number = h })).0 ≡ (send_times s).0)
unfolding send_times report_times
send_times-serialization_lost s h = (refl, refl)
