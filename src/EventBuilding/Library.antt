-- ===== src/EventBuilding/Library.antt =====
-- The classes of na62-farm-lib and na62-trigger-algorithms that eventBuilding/L1Builder.cpp,
-- eventBuilding/L2Builder.cpp, eventBuilding/StorageHandler.cpp and SharedMemory/QueueReceiver.cpp
-- call. Their code is not part of this repository. A call that changes their state is a `Call`,
-- and the program is modelled with the list of the calls that it has made, newest first; what a
-- call or a getter returns is a function of that list, a field of `Library`, so that any
-- deterministic library, whatever state it keeps, is such a record.
use na62_farm.Base.{ℕ, Bool, List, Option}

-- An `Event*` of the event pool.
abbrev pub Event : Type 0
Event = ℕ

-- An `l0::MEPFragment*` or `l1::MEPFragment*`, with what its getters return.
pub record Fragment : Type 0 where
  pub event_number : ℕ
  pub source_id : ℕ
  pub source_sub_id : ℕ
  pub first_words : ℕ × ℕ

-- An `EVENT_HDR*` that the serializer has filled: `length` in words of four bytes, `burstID`.
pub record EventHdr : Type 0 where
  pub words : ℕ
  pub burst_id : ℕ

-- A `TriggerMessager`.
pub record TriggerMessage : Type 0 where
  pub burst_id : ℕ
  pub event_id : ℕ
  pub level : ℕ
  pub l1_trigger_type_word : ℕ
  pub is_request_zero_suppressed : Bool
  pub is_l1_while_timeout : Bool
  pub l1_trigger_words : List ℕ

pub data Call : Type 0 where
  -- Event
  add_l0_fragment : Event → Fragment → ℕ → Call
  add_l1_fragment : Event → Fragment → Call
  set_timestamp : Event → ℕ → Call
  read_trigger_type_word : Event → Call
  set_l1_processed : Event → ℕ → Call
  set_l1_requested : Event → Call
  set_l2_processed : Event → ℕ → Call
  set_serialization_time : Event → Call
  set_request_zero_suppressed : Event → Bool → Call
  set_l1_trigger_words : Event → List ℕ → Call
  -- EventPool, and `delete fragment`
  free_event : Event → Call
  delete_fragment : Fragment → Call
  -- L1TriggerProcessor, L2TriggerProcessor
  l1_compute : Event → Call
  write_l1_data : Event → Bool → Call
  l2_compute : Event → Call
  on_non_z_suppressed_data : Event → Call
  -- L1DistributionHandler, SmartEventSerializer
  request_l1_data : Event → Bool → Call
  serialize_event : Event → Call
  -- HltStatistics
  update_l1_statistics : Event → ℕ → Call
  update_l2_statistics : Event → ℕ → Call
  update_storage_statistics : ℕ → Call
  sum_l1_request_to_creams : ℕ → Call
  -- SharedMemoryManager
  store_l1_event : Event → Call
  set_event_in set_event_out set_event_l1_requested set_event_l1_stored : ℕ → ℕ → Call
  show_last_burst : ℕ → Call
  -- the clean-up at the end of a burst
  update_missing_events_stats : Event → Call
  sum_l1_corrupted_header : ℕ → Call
  clear_trigger_queue check_trigger_free_queue : Call
  clear_l0_detector_statistics clear_l1_detector_statistics : Call
  reset_hlt_statistics reset_event_counters : Call

-- What the calls and the getters return after the calls in the list.
pub record Library : Type 0 where
  pub get_event : List Call → ℕ → Option Event
  pub l0_complete : List Call → Event → Fragment → ℕ → Bool
  pub l1_complete : List Call → Event → Fragment → Bool
  pub reference_timestamp : List Call → Event → ℕ
  pub timestamp : List Call → Event → ℕ
  pub burst_of : List Call → Event → ℕ
  pub l0_trigger_type_word : List Call → Event → ℕ
  pub l1_trigger : List Call → Event → ℕ
  pub l2_trigger : List Call → Event → ℕ
  pub non_z_suppressed_trigger : List Call → Event → ℕ
  pub is_l2_accepted : List Call → Event → Bool
  pub is_waiting_for_non_z_suppressed : List Call → Event → Bool
  pub is_request_zero_suppressed : List Call → Event → Bool
  pub store_succeeds : List Call → Event → Bool
  pub serialized : List Call → Event → EventHdr
  pub l0_building_time : List Call → Event → ℕ
  pub l1_building_time : List Call → Event → ℕ
  pub l1_processing_time : List Call → Event → ℕ
  pub l2_processing_time : List Call → Event → ℕ
  pub serialization_time : List Call → Event → ℕ
  -- `(uint) (t * 25e-8)` in double arithmetic
  pub seconds_index : ℕ → ℕ
  -- BurstIdHandler::getCurrentBurstId
  pub current_burst_id : List Call → ℕ

-- What is fixed while the program runs: the build flags MEASURE_TIME and USE_SHAREDMEMORY, the
-- tables of SourceIDManager, and the option for the requests to the LKr.
pub record Config : Type 0 where
  pub measure_time : Bool
  pub use_shared_memory : Bool
  pub expected_l1_packets : ℕ
  pub is_l2_active : Bool
  pub request_z_suppressed_lkr_data : Bool
