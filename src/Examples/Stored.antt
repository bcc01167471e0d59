-- ===== src/Examples/Stored.antt =====
-- eventBuilding/StorageHandler.cpp beside the other threads: the event that the end of a burst drops is
-- sent at the second attempt.
use na62_farm.Base.{◌≡◌, ◌⊎◌, refl, true, false, none, some, List, [], ◌∷◌, All, arith}
use na62_farm.EventBuilding.Library.{EventHdr}
use na62_farm.Mergers.{
  Attempt, interrupted, delivered, send_event_data, try_send, answer, socket_for, StorageTurn,
  send_popped, store_events,
}
use na62_farm.Mergers.Drained.{events_of}
use na62_farm.EventBuilding.Storage.{send_event}
use na62_farm.Burst.{drop_event, clean_slot, clean_slots}
use na62_farm.Burst.Times.{send_times-resets}
use na62_farm.Burst.Finished.{
  on_burst_finished, is_leaking, reset_all_counters, report_and_reset_times, check_trigger_queue,
  clear_detector_statistics, drop_unfinished,
}
use na62_farm.System.{Program, burst_finished}
use na62_farm.System.Storage.{
  Plant, pop_event, next_data, after_attempt, PlantRun, worked, event_popped, attempted, begun,
  onward,
}
use na62_farm.System.Progress.{work, HasFault}
use na62_farm.System.Storage.Loops.{IsOver, with_storage, Reached, store_events-Reached}
use na62_farm.System.Storage.Drained.{IsServed, Plant-drains}
use na62_farm.System.Storage.Delivered.{IsDelivered}
use na62_farm.System.Storage.Reasons.{HasReason, PlantRun-HasReason}
use na62_farm.Examples.Data.{initial, farm, network, library, config}
use na62_farm.Examples.Interleaved.{waiting_program, open_program, unfinished_burst}

abbrev plant : Plant
plant = record {
  program = open_program;
  mergers = record { merger_sockets = 10 ∷ 11 ∷ []; destroyed = []; sent = [] };
  data_hdr = none;
}

abbrev header : EventHdr
header = library.serialized open_program.farm.builders.calls 4

abbrev interruption : Attempt
interruption = record { is_running = true; result = interrupted; connections = [] }

abbrev delivery : Attempt
delivery = record { is_running = true; result = delivered; connections = [] }

-- The clean-up serializes the event.
dropped :
    (on_burst_finished network library config unfinished_burst
      open_program.farm).farm.builders.data_queue
    ≡ header ∷ []
unfolding on_burst_finished reset_all_counters report_and_reset_times check_trigger_queue
    clear_detector_statistics drop_unfinished clean_slot clean_slots drop_event send_event
dropped = (send_times-resets _).6

stored : (p : Plant) × PlantRun 1500 network library config plant p
unfolding pop_event after_attempt next_data send_event_data try_send answer socket_for
    on_burst_finished is_leaking
stored = (
  _,
  onward
      (onward
        (onward (onward begun (worked _ (burst_finished unfinished_burst refl)))
          (event_popped header [] refl dropped))
        (attempted header interruption refl (λ e. absurd (ground arith))))
      (attempted header delivery refl (λ e. absurd (ground arith))),
)

plant-IsDelivered : IsDelivered library [] plant
plant-IsDelivered = record {
  accounts = record { queued = refl; requested = refl };
  in_order = refl;
}

PlantRun-HasReason_example :
    All
      (HasReason library config stored.0.program.farm.builders.calls)
      (events_of stored.0.mergers.sent)
PlantRun-HasReason_example =
    PlantRun-HasReason 1500 network library config [] stored.1 plant-IsDelivered tt

-- A waiting task, an event in the queue and one that the storage thread holds.
abbrev busy_plant : Plant
busy_plant = record {
  program = record waiting_program {
    farm = record farm { builders = record initial { data_queue = header ∷ [] } };
  };
  mergers = plant.mergers;
  data_hdr = some header;
}

Plant-drains_example :
    (r : Program) × (((work r ≡ 0)
        × (events : List EventHdr) × IsServed 1500 network library config busy_plant [] r events)
      ⊎ (Reached 1500 network library config busy_plant [] [] (record busy_plant { program = r })
          × HasFault 1500 network library config r))
Plant-drains_example =
    Plant-drains 1500 network library config busy_plant [] (omega arith) (omega arith)

-- The first event is sent at the second attempt, and no message can be made of the second.
abbrev storage_turns : List StorageTurn
storage_turns =
    record { is_running = true; message_fails = false; attempts = interruption ∷ delivery ∷ [] }
    ∷ record { is_running = true; message_fails = true; attempts = [] }
    ∷ []

abbrev two_headers : List EventHdr
two_headers = header ∷ header ∷ []

abbrev full_plant : Plant
full_plant = with_storage open_program two_headers plant.mergers none

turns-IsOver : All IsOver (store_events storage_turns two_headers plant.mergers).0
unfolding store_events send_popped send_event_data try_send answer socket_for
turns-IsOver = (tt, (tt, tt))

store_events-Reached_example :
    Reached 1500 network library config full_plant []
      (store_events storage_turns two_headers plant.mergers).0
      (with_storage open_program
        (store_events storage_turns two_headers plant.mergers).1
        (store_events storage_turns two_headers plant.mergers).2
        none)
store_events-Reached_example =
    store_events-Reached 1500 network library config full_plant [] open_program storage_turns
      two_headers [] plant.mergers turns-IsOver (begun, refl, tt)
