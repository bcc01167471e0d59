-- ===== src/EventBuilding/Times.antt =====
-- eventBuilding/L1Builder.cpp and eventBuilding/L2Builder.cpp: the trigger word, and the maxima of the
-- times.
use na62_farm.Base.{ℕ, ◌/◌, ◌%◌, ◌^◌, ◌≤◌, ◌<◌, ◌≡◌, arith}
use na62_farm.Base.Words.{bit_or-shifted}
use na62_farm.EventBuilding.Library.{Event, Library, Config}
use na62_farm.EventBuilding.State.{State}
use na62_farm.EventBuilding.L2Builder.{measure_l1_building}
use na62_farm.EventBuilding.L1Builder.{l0_l1_trigger}

-- The word that both levels are stored in holds the L0 word in its low byte and the L1 word in its
-- high byte, for words of eight bits.
pub l0_l1_trigger-bytes :
    (l0_word l1_word : ℕ)
    → l0_word < 2 ^ 8
    → l1_word < 2 ^ 8
    → (l0_l1_trigger l0_word l1_word % 2 ^ 8 ≡ l0_word)
      × (l0_l1_trigger l0_word l1_word / 2 ^ 8 ≡ l1_word)
      × (l0_l1_trigger l0_word l1_word < 2 ^ 16)
unfolding l0_l1_trigger
l0_l1_trigger-bytes l0_word l1_word a b =
    let e = bit_or-shifted 8 l0_word l1_word a in
    (rw e (omega arith), rw e (omega arith), rw e (omega arith))

-- The maximum of the L1 building times can fall: it is compared with the L0 building time, so an
-- event whose L0 building time reaches the maximum and whose L1 building time is below it
-- lowers it to that L1 time. The clocks are asked at the state before the measurement.
pub measure_l1_building-max_falls :
    (lib : Library) (config : Config) (e : Event) (s : State)
    → s.l1_building.max_time ≤ lib.l0_building_time s.calls e
    → lib.l1_building_time s.calls e < s.l1_building.max_time
    → ((measure_l1_building lib config e s).1.l1_building.max_time ≡ lib.l1_building_time s.calls e)
      × ((measure_l1_building lib config e s).1.l1_building.max_time < s.l1_building.max_time)
unfolding measure_l1_building
measure_l1_building-max_falls lib config e s reached below = ground arith
