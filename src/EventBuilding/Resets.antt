-- ===== src/EventBuilding/Resets.antt =====
-- The getters and resets of eventBuilding/L1Builder.h and eventBuilding/L2Builder.h that change or
-- read the statistics of the times.
use na62_farm.EventBuilding.State.{State, Timing, reset_histogram}

unfoldable pub reset_vs_event_number : Timing → Timing
reset_vs_event_number t = record t { vs_event_number = reset_histogram t.vs_event_number }

unfoldable pub reset_l0_building_time_vs_evt_number : State → State
reset_l0_building_time_vs_evt_number s = record s {
  l0_building = reset_vs_event_number s.l0_building;
}

unfoldable pub reset_l0_building_time_cumulative : State → State
reset_l0_building_time_cumulative s = record s {
  l0_building = record s.l0_building { cumulative = 0 };
}

unfoldable pub reset_l0_building_time_max : State → State
reset_l0_building_time_max s = record s { l0_building = record s.l0_building { max_time = 0 } }

unfoldable pub reset_l1_processing_time_vs_evt_number : State → State
reset_l1_processing_time_vs_evt_number s = record s {
  l1_processing = reset_vs_event_number s.l1_processing;
}

unfoldable pub reset_l1_processing_time_cumulative : State → State
reset_l1_processing_time_cumulative s = record s {
  l1_processing = record s.l1_processing { cumulative = 0 };
}

unfoldable pub reset_l1_processing_time_max : State → State
reset_l1_processing_time_max s = record s {
  l1_processing = record s.l1_processing { max_time = 0 };
}

unfoldable pub reset_l1_building_time_vs_evt_number : State → State
reset_l1_building_time_vs_evt_number s = record s {
  l1_building = reset_vs_event_number s.l1_building;
}

unfoldable pub reset_l1_building_time_cumulative : State → State
reset_l1_building_time_cumulative s = record s {
  l1_building = record s.l1_building { cumulative = 0 };
}

unfoldable pub reset_l1_building_time_max : State → State
reset_l1_building_time_max s = record s { l1_building = record s.l1_building { max_time = 0 } }

unfoldable pub reset_l2_processing_time_vs_evt_number : State → State
reset_l2_processing_time_vs_evt_number s = record s {
  l2_processing = reset_vs_event_number s.l2_processing;
}

unfoldable pub reset_l2_processing_time_cumulative : State → State
reset_l2_processing_time_cumulative s = record s {
  l2_processing = record s.l2_processing { cumulative = 0 };
}

unfoldable pub reset_l2_processing_time_max : State → State
reset_l2_processing_time_max s = record s {
  l2_processing = record s.l2_processing { max_time = 0 };
}

unfoldable pub reset_serialization_time_vs_evt_number : State → State
reset_serialization_time_vs_evt_number s = record s {
  serialization_vs_event_number = reset_histogram s.serialization_vs_event_number;
}

-- `L1Builder::initialize` and `L2Builder::initialize`: new arrays of zeros, which are reset once more;
-- the option that the first of them reads is part of `Config`.
unfoldable pub initialize_l1_builder : State → State
initialize_l1_builder s =
    reset_l1_processing_time_vs_evt_number (reset_l0_building_time_vs_evt_number s)

unfoldable pub initialize_l2_builder : State → State
initialize_l2_builder s =
    reset_serialization_time_vs_evt_number
      (reset_l2_processing_time_vs_evt_number (reset_l1_building_time_vs_evt_number s))
