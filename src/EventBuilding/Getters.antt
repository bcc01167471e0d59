-- ===== src/EventBuilding/Getters.antt =====
-- The getters of eventBuilding/L1Builder.h and eventBuilding/L2Builder.h.
use na62_farm.Base.{ℕ}
use na62_farm.EventBuilding.State.{State, Histogram}

abbrev pub get_l0_building_time_vs_evt_number : State → Histogram
get_l0_building_time_vs_evt_number s = s.l0_building.vs_event_number

abbrev pub get_l1_processing_time_vs_evt_number : State → Histogram
get_l1_processing_time_vs_evt_number s = s.l1_processing.vs_event_number

abbrev pub get_l1_requests : State → ℕ
get_l1_requests s = s.l1_requests

abbrev pub get_l1_processing_time_cumulative : State → ℕ
get_l1_processing_time_cumulative s = s.l1_processing.cumulative

abbrev pub get_l0_building_time_cumulative : State → ℕ
get_l0_building_time_cumulative s = s.l0_building.cumulative

abbrev pub get_l1_processing_time_max : State → ℕ
get_l1_processing_time_max s = s.l1_processing.max_time

abbrev pub get_l0_building_time_max : State → ℕ
get_l0_building_time_max s = s.l0_building.max_time

abbrev pub get_l1_building_time_vs_evt_number : State → Histogram
get_l1_building_time_vs_evt_number s = s.l1_building.vs_event_number

abbrev pub get_l2_processing_time_vs_evt_number : State → Histogram
get_l2_processing_time_vs_evt_number s = s.l2_processing.vs_event_number

abbrev pub get_l2_processing_time_cumulative : State → ℕ
get_l2_processing_time_cumulative s = s.l2_processing.cumulative

abbrev pub get_l1_building_time_cumulative : State → ℕ
get_l1_building_time_cumulative s = s.l1_building.cumulative

abbrev pub get_l2_processing_time_max : State → ℕ
get_l2_processing_time_max s = s.l2_processing.max_time

abbrev pub get_l1_building_time_max : State → ℕ
get_l1_building_time_max s = s.l1_building.max_time
