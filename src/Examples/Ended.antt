-- ===== src/Examples/Ended.antt =====
-- socket/TaskProcessor.cpp and the end of a burst in na62-farm.cpp, at a few tasks and events.
use na62_farm.Base.{ℕ, ◌<◌, ◌≤◌, ◌≡◌, refl, true, false, Option, none, some, List, [], ◌∷◌, arith}
use mathlib.Core.List.{reverse, filter_map, Permᴰ}
use mathlib.Core.List.Permᴰ
use na62_farm.EventBuilding.State.{State}
use na62_farm.Packets.{Task}
use na62_farm.Tasks.{Turn}
use na62_farm.Burst.{Pooled, Dropped, clean_slots}
use na62_farm.Burst.Times.{IsReset, IsEmpty}
use na62_farm.EventBuilding.Accounting.{freed_events}
use na62_farm.Burst.Cleanup.{clean_slots-counts, clean_slots-freed}
use na62_farm.Burst.Finished.{EndOfBurst, on_burst_finished}
use na62_farm.Burst.Fresh.{on_burst_finished-fresh}
use na62_farm.Examples.Data.{network, library, config, farm, initial, whole_frame, arp_frame}

abbrev turns : List Turn
turns =
    record { running = true; flush_burst = λ i. false }
    ∷ record { running = true; flush_burst = λ i. true }
    ∷ record { running = true; flush_burst = λ i. false }
    ∷ []

abbrev tasks : List Task
tasks =
    record { containers = whole_frame ∷ arp_frame ∷ []; burst_id = 3 }
    ∷ record { containers = whole_frame ∷ []; burst_id = 3 }
    ∷ []

-- An unfinished event whose LKr data was requested, an empty slot, a finished event, and the last
-- event of the burst.
abbrev slots : List (Option Pooled)
slots =
    some (record {
      event = 4;
      is_last_event_of_burst = false;
      is_unfinished = true;
      is_l1_requested = true;
      is_mep_header_corrupted = false;
    })
    ∷ none
    ∷ some (record {
      event = 5;
      is_last_event_of_burst = false;
      is_unfinished = false;
      is_l1_requested = true;
      is_mep_header_corrupted = false;
    })
    ∷ some (record {
      event = 6;
      is_last_event_of_burst = true;
      is_unfinished = true;
      is_l1_requested = false;
      is_mep_header_corrupted = true;
    })
    ∷ []

abbrev none_dropped : Dropped
none_dropped = record { incomplete = 0; with_l1_request = 0; builders = initial }

-- The iterations run from the last slot to the first.
abbrev reversed : List (Option Pooled)
reversed = reverse slots

reversed-Perm : Permᴰ reversed slots
reversed-Perm = Permᴰ.reverse slots

clean_slots-counts_example :
    ((clean_slots library reversed none_dropped).incomplete ≡ 2)
    × ((clean_slots library reversed none_dropped).with_l1_request ≡ 1)
    × ((clean_slots library reversed none_dropped).with_l1_request
        ≤ (clean_slots library reversed none_dropped).incomplete)
clean_slots-counts_example =
    clean_slots-counts library slots reversed none_dropped reversed-Perm refl refl (omega arith)

clean_slots-freed_example :
    Permᴰ (freed_events (clean_slots library reversed none_dropped).builders.calls) (4 ∷ 6 ∷ [])
unfolding filter_map
clean_slots-freed_example = clean_slots-freed library slots reversed none_dropped reversed-Perm

abbrev measured : State
measured = record initial { serialization_vs_event_number = λ r c. r }

abbrev end_of_burst : EndOfBurst
end_of_burst = record { pool = slots; waiting_for_l1 = 2; resident = 100; page_size = 4096 }

on_burst_finished-fresh_example :
    let t = (on_burst_finished network library config end_of_burst farm).farm in
    ((n : ℕ) → n < 16 → (t.l0_received.meps n ≡ 0) × (t.l0_received.bytes n ≡ 0))
    × ((n : ℕ) → n < 4 → (t.l1_received.meps n ≡ 0) × (t.l1_received.bytes n ≡ 0))
    × IsReset t.builders.l0_building
    × IsReset t.builders.l1_processing
    × IsReset t.builders.l1_building
    × IsReset t.builders.l2_processing
    × IsEmpty t.builders.serialization_vs_event_number
on_burst_finished-fresh_example =
    on_burst_finished-fresh network library config end_of_burst farm refl
