-- ===== src/EventBuilding/QueueReceiver.antt =====
-- SharedMemory/QueueReceiver.cpp and SharedMemory/QueueReceiver.h: the thread that takes the
-- results of the L1 trigger processes from the shared memory.
use na62_farm.Base.{ℕ, ◌+◌, not, Option, none, some, ltb, ◌==◌, if◌then◌else◌}
use na62_farm.Base.Words.{u8, u32}
use na62_farm.EventBuilding.Library.{Event, TriggerMessage, Call, Library, Config}
use na62_farm.EventBuilding.State.{State, M, ◌>>=◌, ◌>>◌, call, ask, choose, when}
use na62_farm.EventBuilding.L2Builder.{process_l2}
use na62_farm.EventBuilding.L1Builder.{l0_l1_trigger, send_l1_request}

-- `highest_burst_id_received_`, and the local counter of `thread`.
pub record Receiver : Type 0 where
  pub highest_burst_id_received : ℕ
  pub event_received_per_burst : ℕ
  pub builders : State

module _ (lib : Library) (config : Config) where
  -- the verdict of `thread` on an event
  unfoldable pub response_verdict : TriggerMessage → Event → M Unit
  response_verdict message e =
      choose (not (message.l1_trigger_type_word == 0))
        (choose (not (config.expected_l1_packets == 0))
          (do
            send_l1_request lib config e
            call (Call.set_l1_requested e)
            burst ← ask (λ h. lib.burst_of h e)
            call (Call.set_event_l1_requested burst 1))
          (process_l2 lib config e))
        (call (Call.free_event e))

  unfoldable pub respond : TriggerMessage → Event → M Unit
  respond message e = do
    l0_word ← ask (λ h. u8 (lib.l0_trigger_type_word h e))
    call (Call.set_request_zero_suppressed e message.is_request_zero_suppressed)
    call (Call.set_l1_trigger_words e message.l1_trigger_words)
    call (Call.write_l1_data e message.is_l1_while_timeout)
    call (Call.set_l1_processed e (l0_l1_trigger l0_word message.l1_trigger_type_word))
    call (Call.update_l1_statistics e message.l1_trigger_type_word)
    response_verdict message e

  -- the counters of `thread` for a message of the current burst
  unfoldable pub count_message : TriggerMessage → Receiver → Receiver
  count_message message r =
      let newer = ltb r.highest_burst_id_received message.burst_id in
      record {
        highest_burst_id_received = if newer then message.burst_id else r.highest_burst_id_received;
        event_received_per_burst = if newer then 1 else u32 (r.event_received_per_burst + 1);
        builders =
            (call (Call.set_event_in message.burst_id 1)
              (when newer (call (Call.show_last_burst 20)) r.builders).1).1;
      }

  -- `none`: the event pool has no such event, and the null pointer is dereferenced.
  unfoldable pub respond_to : TriggerMessage → Option Event → Receiver → Option Receiver
  respond_to message none r = none
  respond_to message (some e) r = some (record r { builders = (respond message e r.builders).1 })

  -- One round of the loop of `thread` that has popped a message.
  unfoldable pub receive : TriggerMessage → Receiver → Option Receiver
  receive message r =
      let r' = count_message message r in
      if not (message.burst_id == lib.current_burst_id r.builders.calls)
      then some r
      else if message.level == 1
      then respond_to message (lib.get_event r'.builders.calls message.event_id) r'
      else some r'
