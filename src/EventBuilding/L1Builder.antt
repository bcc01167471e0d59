-- ===== src/EventBuilding/L1Builder.antt =====
-- eventBuilding/L1Builder.cpp and eventBuilding/L1Builder.h.
use Prim.Native.Nat.{bit_or}
use na62_farm.Base.{ℕ, ◌+◌, ◌*◌, ◌/◌, ◌^◌, not, ◌&&◌, Option, none, some, ◌==◌}
use na62_farm.Base.Words.{u8, u32, u64}
use na62_farm.EventBuilding.Library.{Event, Fragment, Call, Library, Config}
use na62_farm.EventBuilding.State.{
  M, ◌>>=◌, ◌>>◌, call, ask, modify, choose, when, clamp_index, count_at, add_time, timestamp_index,
}
use na62_farm.EventBuilding.L2Builder.{process_l2}

-- `l0TriggerTypeWord | l1TriggerTypeWord << 8`
unfoldable pub l0_l1_trigger : ℕ → ℕ → ℕ
l0_l1_trigger l0_word l1_word = bit_or l0_word (l1_word * 2 ^ 8)

-- The word that marks the events that did not fit the shared memory.
abbrev pub bypass_word : ℕ
bypass_word = 0x20

module _ (lib : Library) (config : Config) where
  unfoldable pub send_l1_request : Event → M Unit
  send_l1_request e = do
    zero_suppressed ← ask (λ h. lib.is_request_zero_suppressed h e)
    call (Call.request_l1_data e (zero_suppressed && config.request_z_suppressed_lkr_data))
    modify (λ s. record s { l1_requests = u64 (s.l1_requests + 1) })
    call (Call.sum_l1_request_to_creams 1)

  unfoldable pub measure_l0_building : Event → M Unit
  measure_l0_building e = do
    time ← ask (λ h. lib.l0_building_time h e)
    column ← ask (λ h. timestamp_index lib h e)
    modify (λ s. record s {
      l0_building = add_time time (record s.l0_building {
        vs_event_number =
            count_at (clamp_index (u32 time / 5000)) column s.l0_building.vs_event_number;
      });
    })

  unfoldable pub measure_l1_processing : Event → M Unit
  measure_l1_processing e = do
    time ← ask (λ h. lib.l1_processing_time h e)
    column ← ask (λ h. timestamp_index lib h e)
    modify (λ s. record s {
      l1_processing = add_time time (record s.l1_processing {
        vs_event_number =
            count_at (clamp_index (u32 time / 10)) column s.l1_processing.vs_event_number;
      });
    })

  -- `processL1` of a build with USE_SHAREDMEMORY, where the event did not fit
  unfoldable pub bypass_l1 : Event → M Unit
  bypass_l1 e = do
    l0_word ← ask (λ h. u8 (lib.l0_trigger_type_word h e))
    call (Call.update_l1_statistics e bypass_word)
    call (Call.set_l1_processed e (l0_l1_trigger l0_word bypass_word))
    choose (not (config.expected_l1_packets == 0))
        (do
          send_l1_request e
          call (Call.set_l1_requested e)
          burst ← ask (λ h. lib.burst_of h e)
          call (Call.set_event_l1_requested burst 1))
        (process_l2 lib config e)

  -- `processL1` of a build with USE_SHAREDMEMORY
  unfoldable pub process_l1_shared : Event → M Unit
  process_l1_shared e = do
    stored ← ask (λ h. lib.store_succeeds h e)
    call (Call.store_l1_event e)
    burst ← ask (λ h. lib.burst_of h e)
    choose stored (call (Call.set_event_out burst 1)) (bypass_l1 e)

  -- what follows the L1 trigger: a request, L2, or the end of the event
  unfoldable pub l1_verdict : Event → ℕ → M Unit
  l1_verdict e word =
      choose (not (word == 0))
        (choose (not (config.expected_l1_packets == 0)) (send_l1_request e)
          (process_l2 lib config e))
        (call (Call.free_event e))

  -- `processL1` of a build without USE_SHAREDMEMORY
  unfoldable pub process_l1_local : Event → M Unit
  process_l1_local e = do
    l0_word ← ask (λ h. u8 (lib.l0_trigger_type_word h e))
    word ← ask (λ h. u8 (lib.l1_trigger h e))
    call (Call.l1_compute e)
    call (Call.update_l1_statistics e word)
    call (Call.set_l1_processed e (l0_l1_trigger l0_word word))
    when config.measure_time (measure_l1_processing e)
    l1_verdict e word

  unfoldable pub process_l1 : Event → M Unit
  process_l1 e = choose config.use_shared_memory (process_l1_shared e) (process_l1_local e)

  unfoldable pub add_l0_fragment : Event → Fragment → ℕ → M Unit
  add_l0_fragment e f burst_id = do
    complete ← ask (λ h. lib.l0_complete h e f burst_id)
    call (Call.add_l0_fragment e f burst_id)
    when complete (do
      ts ← ask (λ h. lib.reference_timestamp h e)
      call (Call.set_timestamp e ts)
      when config.measure_time (measure_l0_building e)
      call (Call.read_trigger_type_word e)
      process_l1 e)

  abbrev pub l0_fragment_for : Fragment → ℕ → Option Event → M Unit
  l0_fragment_for f burst_id none = call (Call.delete_fragment f)
  l0_fragment_for f burst_id (some e) = add_l0_fragment e f burst_id

  unfoldable pub build_event : Fragment → ℕ → M Unit
  build_event f burst_id = do
    event ← ask (λ h. lib.get_event h f.event_number)
    l0_fragment_for f burst_id event
