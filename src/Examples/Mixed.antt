-- ===== src/Examples/Mixed.antt =====
-- Two threads at once: a trigger process has rejected one event, and the end of the burst drops another.
use na62_farm.Base.{
  ◌≡◌, refl, sym, subst, false, some, some_inj, List, [], ◌∷◌, inl, inr, arith, Bool-cases, ◌==◌,
}
use na62_farm.EventBuilding.Library.{Call, Config, TriggerMessage}
use na62_farm.EventBuilding.State.{State}
use na62_farm.EventBuilding.Storage.{send_event}
use na62_farm.EventBuilding.QueueReceiver.{
  Receiver, receive, respond_to, respond, response_verdict, count_message,
}
use na62_farm.EventBuilding.L1Builder.{l0_l1_trigger}
use na62_farm.EventBuilding.Protocol.{phase, building}
use na62_farm.EventBuilding.Protocol.Assumed.{InProtocol}
use na62_farm.Burst.{clean_slot, clean_slots, drop_event}
use na62_farm.Burst.Finished.{
  on_burst_finished, is_leaking, reset_all_counters, report_and_reset_times, check_trigger_queue,
  clear_detector_statistics, drop_unfinished,
}
use na62_farm.System.{
  Program, take_answer, receiver_of, Reach, start, later, answered, burst_finished,
}
use na62_farm.System.Serial.{SameCalls, SameCalls-InProtocol}
use na62_farm.Examples.Data.{
  initial, event_fragment, network, library, config, library-ReportsOnce, farm,
}
use na62_farm.Examples.Interleaved.{began, unfinished_burst}

abbrev untimed : Config
untimed = record config { measure_time = false }

abbrev first_calls : List Call
first_calls = Call.add_l0_fragment 4 event_fragment 3 ∷ Call.add_l0_fragment 5 event_fragment 3 ∷ []

abbrev first_state : State
first_state = record initial { calls = first_calls }

abbrev first_program : Program
first_program = record began { farm = record farm { builders = first_state } }

-- L1 has rejected the event.
abbrev rejection : TriggerMessage
rejection = record {
  burst_id = 3;
  event_id = 5;
  level = 1;
  l1_trigger_type_word = 0;
  is_request_zero_suppressed = false;
  is_l1_while_timeout = false;
  l1_trigger_words = [];
}

abbrev answer_calls : List Call
answer_calls =
    Call.update_l1_statistics 5 0
    ∷ Call.set_l1_processed 5 1
    ∷ Call.write_l1_data 5 false
    ∷ Call.set_l1_trigger_words 5 []
    ∷ Call.set_request_zero_suppressed 5 false
    ∷ Call.set_event_in 3 1
    ∷ Call.show_last_burst 20
    ∷ first_calls

abbrev last_receiver : Receiver
last_receiver = record {
  highest_burst_id_received = 3;
  event_received_per_burst = 1;
  builders = record first_state { calls = Call.free_event 5 ∷ answer_calls };
}

received : receive library untimed rejection (receiver_of first_program) ≡ some last_receiver
unfolding receive respond_to respond response_verdict count_message l0_l1_trigger
received = refl

serial : (p : Program) × Reach 1500 network library untimed first_program p
unfolding take_answer is_leaking on_burst_finished
serial = (
  _,
  later (later start (answered rejection last_receiver received))
      (burst_finished unfinished_burst refl),
)

-- The clean-up has written its event before the other is freed.
abbrev with_middle : List Call → List Call
with_middle l =
    Call.reset_event_counters
    ∷ Call.reset_hlt_statistics
    ∷ Call.clear_l1_detector_statistics
    ∷ Call.clear_l0_detector_statistics
    ∷ Call.free_event 4
    ∷ Call.update_missing_events_stats 4
    ∷ l

abbrev mixed_calls : List Call
mixed_calls = with_middle (Call.free_event 5 ∷ Call.serialize_event 4 ∷ answer_calls)

serial-calls :
    serial.0.farm.builders.calls
    ≡ with_middle (Call.serialize_event 4 ∷ Call.free_event 5 ∷ answer_calls)
unfolding serial take_answer on_burst_finished reset_all_counters report_and_reset_times
    check_trigger_queue clear_detector_statistics drop_unfinished clean_slot clean_slots drop_event
    send_event
serial-calls = refl

swapped :
    SameCalls mixed_calls (with_middle (Call.serialize_event 4 ∷ Call.free_event 5 ∷ answer_calls))
swapped x = elim (Bool-cases (5 == x)) [ inl e ↦ ground (arith, e) | inr e ↦ ground (arith, e) ]

first_state-InProtocol : InProtocol first_state
first_state-InProtocol x = ground arith

SameCalls-InProtocol_example : InProtocol (record serial.0.farm.builders { calls = mixed_calls })
unfolding serial take_answer
SameCalls-InProtocol_example =
    SameCalls-InProtocol 1500 network library untimed serial.1 mixed_calls
      (subst (SameCalls mixed_calls) (sym serial-calls) swapped) library-ReportsOnce
      (
        (λ u. inl refl, tt, tt),
        ((λ e h. subst (λ x. phase x first_calls ≡ some building) (some_inj h) refl), tt),
      )
      first_state-InProtocol
