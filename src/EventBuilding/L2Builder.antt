-- ===== src/EventBuilding/L2Builder.antt =====
-- eventBuilding/L2Builder.cpp and eventBuilding/L2Builder.h.
use na62_farm.Base.{◌+◌, ◌/◌, not, ◌&&◌, Option, none, some, leb, if◌then◌else◌}
use na62_farm.Base.Words.{u8, u32, u64}
use na62_farm.EventBuilding.Library.{Event, Fragment, Call, Library, Config}
use na62_farm.EventBuilding.Storage.{send_event}
use na62_farm.EventBuilding.State.{
  M, ◌>>=◌, ◌>>◌, call, ask, modify, choose, when, clamp_index, count_at, add_time, timestamp_index,
}

module _ (lib : Library) (config : Config) where
  unfoldable pub measure_l1_building : Event → M Unit
  measure_l1_building e = do
    building ← ask (λ h. lib.l1_building_time h e)
    column ← ask (λ h. timestamp_index lib h e)
    l0_time ← ask (λ h. lib.l0_building_time h e)
    modify (λ s. record s {
      l1_building = record {
        cumulative = u64 (s.l1_building.cumulative + building);
        max_time = if leb s.l1_building.max_time l0_time then building else s.l1_building.max_time;
        vs_event_number =
            count_at (clamp_index (u32 building / 10000)) column s.l1_building.vs_event_number;
      };
    })

  unfoldable pub measure_l2_processing : Event → M Unit
  measure_l2_processing e = do
    time ← ask (λ h. lib.l2_processing_time h e)
    column ← ask (λ h. timestamp_index lib h e)
    modify (λ s. record s {
      l2_processing = add_time time (record s.l2_processing {
        vs_event_number = count_at (clamp_index (u32 time)) column s.l2_processing.vs_event_number;
      });
    })

  unfoldable pub measure_serialization : Event → M Unit
  measure_serialization e = do
    call (Call.set_serialization_time e)
    time ← ask (λ h. lib.serialization_time h e)
    column ← ask (λ h. timestamp_index lib h e)
    modify (λ s. record s {
      serialization_vs_event_number =
          count_at (clamp_index (u32 time)) column s.serialization_vs_event_number;
    })

  -- the branch of `processL2` for an event that L2 has accepted
  unfoldable pub send_accepted : Event → M Unit
  send_accepted e = do
    bytes ← send_event lib e
    when config.measure_time (measure_serialization e)
    call (Call.update_storage_statistics bytes)
    burst ← ask (λ h. lib.burst_of h e)
    when config.use_shared_memory (call (Call.set_event_l1_stored burst 1))

  -- the branch of `processL2` that runs the L2 trigger
  unfoldable pub run_l2_trigger : Event → M Unit
  run_l2_trigger e = do
    word ← ask (λ h. u8 (lib.l2_trigger h e))
    call (Call.l2_compute e)
    call (Call.update_l2_statistics e word)
    call (Call.set_l2_processed e word)
    when config.measure_time (measure_l2_processing e)
    waits ← ask (λ h. lib.is_waiting_for_non_z_suppressed h e)
    accepted ← ask (λ h. lib.is_l2_accepted h e)
    when (not waits && accepted) (send_accepted e)

  -- the branch of `processL2` for data without zero suppression
  unfoldable pub run_non_z_suppressed : Event → M Unit
  run_non_z_suppressed e = do
    word ← ask (λ h. u8 (lib.non_z_suppressed_trigger h e))
    call (Call.on_non_z_suppressed_data e)
    call (Call.set_l2_processed e word)
    time ← ask (λ h. lib.l2_processing_time h e)
    when config.measure_time
        (modify (λ s. record s { l2_processing = add_time time s.l2_processing }))

  -- the branch of `processL2` where L2 is disabled
  unfoldable pub write_out : Event → M Unit
  write_out e = do
    call (Call.set_l2_processed e 0)
    bytes ← send_event lib e
    call (Call.update_storage_statistics bytes)

  unfoldable pub process_l2 : Event → M Unit
  process_l2 e = do
    waits ← ask (λ h. lib.is_waiting_for_non_z_suppressed h e)
    choose (not config.is_l2_active) (write_out e)
        (choose (not waits) (run_l2_trigger e) (run_non_z_suppressed e))
    call (Call.free_event e)

  unfoldable pub add_l1_fragment : Event → Fragment → M Unit
  add_l1_fragment e f = do
    complete ← ask (λ h. lib.l1_complete h e f)
    call (Call.add_l1_fragment e f)
    when complete (when config.measure_time (measure_l1_building e) >> process_l2 e)

  abbrev pub l1_fragment_for : Fragment → Option Event → M Unit
  l1_fragment_for f none = call (Call.delete_fragment f)
  l1_fragment_for f (some e) = add_l1_fragment e f

  unfoldable pub build_event : Fragment → M Unit
  build_event f = do event ← ask (λ h. lib.get_event h f.event_number); l1_fragment_for f event
