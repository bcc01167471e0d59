-- ===== src/Examples/Events.antt =====
-- eventBuilding/ at one fragment that completes an event.
use na62_farm.Base.{inl, ◌≡◌, arith}
use na62_farm.EventBuilding.L1Builder
use na62_farm.EventBuilding.L2Builder
use na62_farm.EventBuilding.L1Builder.{
  process_l1, l0_l1_trigger, measure_l0_building, measure_l1_processing,
}
use na62_farm.EventBuilding.L2Builder.{
  measure_l1_building, measure_l2_processing, measure_serialization,
}
use na62_farm.EventBuilding.Bounds.{measurements-inside}
use na62_farm.EventBuilding.QueueReceiver.{Receiver}
use na62_farm.EventBuilding.Steps.{Run, here, then_step, l0_arrives, l1_arrives}
use na62_farm.EventBuilding.Protocol.Assumed.{InProtocol}
use na62_farm.EventBuilding.Protocol.Runs.{Run-InProtocol}
use na62_farm.EventBuilding.Decisions.{l1_decision, Yields}
use na62_farm.EventBuilding.Decisions.L1.{process_l1-decides}
use na62_farm.Examples.Data.{
  library, config, library-ReportsOnce, initial, receiver, event_fragment,
}

-- The receiver after a fragment of the first level, and after one more of the second.
abbrev after_l0 : Receiver
after_l0 = record receiver {
  builders = (L1Builder.build_event library config event_fragment 3 initial).1;
}

abbrev after_l1 : Receiver
after_l1 = record after_l0 {
  builders = (L2Builder.build_event library config event_fragment after_l0.builders).1;
}

run : Run library config receiver after_l1
run = then_step (then_step here (l0_arrives event_fragment 3)) (l1_arrives event_fragment)

initial-InProtocol : InProtocol initial
initial-InProtocol x = ground arith

Run-InProtocol_example : InProtocol after_l1.builders
unfolding run
Run-InProtocol_example = Run-InProtocol library config run library-ReportsOnce tt initial-InProtocol

measurements-inside_example :
    ((measure_l0_building library config 7 initial).1.l0_building.vs_event_number 101 0 ≡ 0)
    × ((measure_l1_processing library config 7 initial).1.l1_processing.vs_event_number 101 0 ≡ 0)
    × ((measure_l1_building library config 7 initial).1.l1_building.vs_event_number 101 0 ≡ 0)
    × ((measure_l2_processing library config 7 initial).1.l2_processing.vs_event_number 101 0 ≡ 0)
    × ((measure_serialization library config 7 initial).1.serialization_vs_event_number 101 0 ≡ 0)
measurements-inside_example = measurements-inside library config 7 initial 101 0 (inl (omega arith))

process_l1-decides_example :
    Yields library config 7
      (l1_decision library config 7 initial.calls)
      initial
      (process_l1 library config 7)
process_l1-decides_example = process_l1-decides library config 7 initial
