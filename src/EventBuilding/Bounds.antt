-- ===== src/EventBuilding/Bounds.antt =====
-- eventBuilding/L1Builder.cpp and eventBuilding/L2Builder.cpp: the histograms of the times are written
-- inside their arrays only.
use na62_farm.Base.{ℕ, ◌≤◌, ◌<◌, ◌≡◌, ◌⊎◌, arith}
use na62_farm.EventBuilding.Library.{Event, Library, Config}
use na62_farm.EventBuilding.State.{State, Histogram, clamp_index, count_at, add_time}
use na62_farm.EventBuilding.L1Builder.{measure_l0_building, measure_l1_processing}
use na62_farm.EventBuilding.L2Builder.{
  measure_l1_building, measure_l2_processing, measure_serialization,
}

clamp_index-le : (i : ℕ) → clamp_index i ≤ 100
unfolding clamp_index
clamp_index-le i = ground arith

count_at-outside :
    (i j : ℕ) (h : Histogram) (r c : ℕ)
    → (100 < r) ⊎ (100 < c)
    → count_at (clamp_index i) (clamp_index j) h r c ≡ h r c
unfolding count_at
count_at-outside i j h r c out = ground (arith, clamp_index-le i, clamp_index-le j)

-- Whatever times the library reports, the five measurements change no cell of their histograms
-- outside of the 101 rows and 101 columns that are allocated.
pub measurements-inside :
    (lib : Library) (config : Config) (e : Event) (s : State) (r c : ℕ)
    → (100 < r) ⊎ (100 < c)
    → ((measure_l0_building lib config e s).1.l0_building.vs_event_number r c
        ≡ s.l0_building.vs_event_number r c)
      × ((measure_l1_processing lib config e s).1.l1_processing.vs_event_number r c
          ≡ s.l1_processing.vs_event_number r c)
      × ((measure_l1_building lib config e s).1.l1_building.vs_event_number r c
          ≡ s.l1_building.vs_event_number r c)
      × ((measure_l2_processing lib config e s).1.l2_processing.vs_event_number r c
          ≡ s.l2_processing.vs_event_number r c)
      × ((measure_serialization lib config e s).1.serialization_vs_event_number r c
          ≡ s.serialization_vs_event_number r c)
unfolding measure_l0_building measure_l1_processing measure_l1_building measure_l2_processing
    measure_serialization add_time
measurements-inside lib config e s r c out = (
  count_at-outside _ _ s.l0_building.vs_event_number r c out,
  count_at-outside _ _ s.l1_processing.vs_event_number r c out,
  count_at-outside _ _ s.l1_building.vs_event_number r c out,
  count_at-outside _ _ s.l2_processing.vs_event_number r c out,
  count_at-outside _ _ s.serialization_vs_event_number r c out,
)
