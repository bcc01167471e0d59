-- ===== src/Monitoring.antt =====
-- monitoring/MonitorConnector.cpp: `handleUpdate`, which sends the statistics every second. What is
-- written to a stream is kept as its fields, each a number that a `;` ends.
pub mod Fields
pub mod Words
pub mod Means
use na62_farm.Base.{
  ℕ, zero, suc, ◌+◌, ◌/◌, Bool, true, false, not, List, [], ◌∷◌, ◌++◌, map, ltb, ◌==◌,
  if◌then◌else◌,
}
use na62_farm.EventBuilding.State.{State}
use na62_farm.EventBuilding.Getters.{
  get_l0_building_time_cumulative, get_l0_building_time_max, get_l1_building_time_cumulative,
  get_l1_building_time_max, get_l1_processing_time_cumulative, get_l1_processing_time_max,
  get_l2_processing_time_cumulative, get_l2_processing_time_max,
}
use na62_farm.FrameTasks.State.{
  Farm, Received, get_meps_received_by_source_num, get_bytes_received_by_source_num,
  get_l1_meps_received_by_source_num, get_l1_bytes_received_by_source_num,
}

pub data NumberBase : Type 0 where
  hexadecimal decimal : NumberBase

-- A number in the stream, with the base that it is written in, and whether `0x` stands before it.
pub record Field : Type 0 where
  pub is_prefixed : Bool
  pub base : NumberBase
  pub value : ℕ

-- A `std::stringstream`: the base stays what `std::hex` or `std::dec` has set it to.
pub record Stream : Type 0 where
  pub base : NumberBase
  pub out : List Field

unfoldable pub set_base : NumberBase → Stream → Stream
set_base b s = record s { base = b }

unfoldable pub write : Bool → ℕ → Stream → Stream
write prefixed n s = record s {
  out = s.out ++ record { is_prefixed = prefixed; base = s.base; value = n } ∷ [];
}

-- The sources of one level: their number, and for each source number what the tables of
-- SourceIDManager and the counters of `Event` give, with the counters of `HandleFrameTask`.
pub record Sources : Type 0 where
  pub number_of_sources : ℕ
  pub source_id : ℕ → ℕ
  pub expected_packs : ℕ → ℕ
  pub missing_events : ℕ → ℕ
  pub received : Received

module _ (src : Sources) where
  -- the part of a round under `getExpectedPacksBySourceID(sourceID) > 0`
  unfoldable pub write_meps : ℕ → Stream → Stream
  write_meps num s =
      if ltb 0 (src.expected_packs num)
      then write false (src.received.meps num / src.expected_packs num)
          (set_base NumberBase.decimal s)
      else s

  unfoldable pub write_source : ℕ → Stream → Stream
  write_source num s =
      let a = write true (src.source_id num) (set_base NumberBase.hexadecimal s) in
      let b = write_meps num a in
      let c = write false (src.missing_events num) (set_base NumberBase.decimal b) in
      write false (src.received.bytes num) (set_base NumberBase.decimal c)

  -- the loop from the last source number down to 0
  unfoldable pub write_sources : ℕ → Stream → Stream
  write_sources zero s = s
  write_sources (suc num) s = write_sources num (write_source num s)

-- The string of `DetectorData`.
unfoldable pub detector_data : ℕ → Sources → Sources → List Field
detector_data expected_l1_packets l0 l1 =
    let s =
      write_sources l0 l0.number_of_sources (record { base = NumberBase.decimal; out = [] }) in
    (if not (expected_l1_packets == 0) then write_sources l1 l1.number_of_sources s else s).out

-- The string of `L1TriggerData` or `L2TriggerData`, after the first words: each word with a positive
-- count, and the count.
unfoldable pub trigger_data : (ℕ → ℕ) → ℕ → List (ℕ × ℕ)
trigger_data triggers zero = []
trigger_data triggers (suc word) =
    let before = trigger_data triggers word in
    if ltb 0 (triggers word) then before ++ (word, triggers word) ∷ [] else before

-- a mean time, of a cumulative one and a number of events
unfoldable pub time_mean : ℕ → ℕ → ℕ
time_mean cumulative events =
    if not (cumulative == 0) then (if not (events == 0) then cumulative / events else 0) else 0

-- The calls of `IPCHandler::sendStatistics`. A key of `HltStatistics` is a number, and so is the
-- string of a dimensional counter.
pub data Statistic : Type 0 where
  l1_mrps_sent l1_triggers_sent : ℕ → Statistic
  pf_bytes_received pf_packs_received pf_packs_dropped : ℕ → Statistic
  hlt_counter dimensional_counter : ℕ × ℕ → Statistic
  detector_data_sent : List Field → Statistic
  l1_trigger_data l2_trigger_data : List (ℕ × ℕ) → Statistic
  l0_building_time_mean l1_building_time_mean : ℕ → Statistic
  l0_building_time_max l1_building_time_max : ℕ → Statistic
  l1_processing_time_mean l2_processing_time_mean : ℕ → Statistic
  l1_processing_time_max l2_processing_time_max : ℕ → Statistic

-- What `handleUpdate` reads from the libraries.
pub record Monitored : Type 0 where
  pub is_running : Bool
  pub l1_mrps_sent : ℕ
  pub l1_triggers_sent : ℕ
  pub bytes_received : ℕ
  pub frames_received : ℕ
  pub frames_dropped : ℕ
  pub counters : List (ℕ × ℕ)
  pub dimensional_counters : List (ℕ × ℕ)
  pub expected_l1_packets : ℕ
  pub l0_sources : Sources
  pub l1_sources : Sources
  pub l1_trigger_stats : ℕ → ℕ
  pub l2_trigger_stats : ℕ → ℕ
  pub l1_input_events : ℕ
  pub l2_input_events : ℕ

unfoldable pub time_statistics : ℕ → ℕ → State → List Statistic
time_statistics l1_input_events l2_input_events s =
    Statistic.l0_building_time_mean (time_mean (get_l0_building_time_cumulative s) l1_input_events)
    ∷ Statistic.l1_building_time_mean
        (time_mean (get_l1_building_time_cumulative s) l2_input_events)
    ∷ Statistic.l0_building_time_max (get_l0_building_time_max s)
    ∷ Statistic.l1_building_time_max (get_l1_building_time_max s)
    ∷ Statistic.l1_processing_time_mean
        (time_mean (get_l1_processing_time_cumulative s) l1_input_events)
    ∷ Statistic.l2_processing_time_mean
        (time_mean (get_l2_processing_time_cumulative s) l2_input_events)
    ∷ Statistic.l1_processing_time_max (get_l1_processing_time_max s)
    ∷ Statistic.l2_processing_time_max (get_l2_processing_time_max s)
    ∷ []

-- The counters of the sources are those that the frames have changed.
unfoldable pub handle_update : Monitored → Farm → List Statistic
handle_update m s =
    let sent =
      Statistic.l1_mrps_sent m.l1_mrps_sent
        ∷ Statistic.l1_triggers_sent m.l1_triggers_sent
        ∷ Statistic.pf_bytes_received m.bytes_received
        ∷ Statistic.pf_packs_received m.frames_received
        ∷ Statistic.pf_packs_dropped m.frames_dropped
        ∷ map Statistic.hlt_counter m.counters
      ++ Statistic.detector_data_sent (
          detector_data m.expected_l1_packets
            (record m.l0_sources {
              received = record {
                meps = get_meps_received_by_source_num s;
                bytes = get_bytes_received_by_source_num s;
              };
            })
            (record m.l1_sources {
              received = record {
                meps = get_l1_meps_received_by_source_num s;
                bytes = get_l1_bytes_received_by_source_num s;
              };
            }))
        ∷ map Statistic.dimensional_counter m.dimensional_counters
      ++ Statistic.l1_trigger_data (trigger_data m.l1_trigger_stats (0xff + 1))
        ∷ Statistic.l2_trigger_data (trigger_data m.l2_trigger_stats (0xff + 1))
        ∷ time_statistics m.l1_input_events m.l2_input_events s.builders in
    if not m.is_running then [] else sent
