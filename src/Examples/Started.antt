-- ===== src/Examples/Started.antt =====
-- na62-farm.cpp, the pool parser and the monitoring at a small farm.
use na62_farm.Base.{
  ℕ, zero, suc, ◌+◌, ◌≤◌, ◌<◌, ◌≡◌, refl, sym, subst, true, false, Option, none, some, [], ◌∷◌,
  ◌==◌, arith,
}
use na62_farm.EventBuilding.State.{Timing}
use na62_farm.Pool.{Inspected, Counts, no_counts, skips, parse_pool}
use na62_farm.Pool.Ends.{parse_pool-ends, parse_pool-overruns}
use na62_farm.Pool.Counted.{parse_pool-counts}
use na62_farm.Startup.{Environment, no_node, find_node, logical_node_id, cpu_mask}
use na62_farm.Startup.Nodes.{cpu_mask-apart}
use na62_farm.Monitoring.{Sources, detector_data}
use na62_farm.Monitoring.Fields.{read_entries, detector_data-read}

-- A pool of three slots: an unfinished event, no event, and one that L1 has processed.
abbrev pool : ℕ → Option Inspected
pool zero = some (record { is_unfinished = true; is_l1_processed = false; is_l1_requested = false })
pool (suc zero) = none
pool (suc (suc zero)) =
    some (record { is_unfinished = false; is_l1_processed = true; is_l1_requested = true })
pool (suc (suc (suc n))) = none

last_finished : skips true (pool 2) ≡ false
unfolding skips
last_finished = refl

parse_pool-ends_example : (c : Counts) × (parse_pool true pool 2 3 0 no_counts ≡ some c)
parse_pool-ends_example =
    parse_pool-ends true pool 2 (omega arith) 3 0 no_counts last_finished (omega arith)
      (omega arith)

first_unfinished : skips true (pool 0) ≡ true
unfolding skips
first_unfinished = refl

-- The first and the last of three slots hold an unfinished event.
abbrev overrun_pool : ℕ → Option Inspected
overrun_pool (suc zero) = none
overrun_pool _ =
    some (record { is_unfinished = true; is_l1_processed = false; is_l1_requested = false })

last_skipped : skips true (overrun_pool 2) ≡ true
unfolding skips
last_skipped = refl

middle_not_skipped : (i : ℕ) → suc i ≡ 2 → skips true (overrun_pool i) ≡ false
unfolding skips
middle_not_skipped i e = subst (λ j. skips true (overrun_pool j) ≡ false) (sym (pred_one i e)) refl
  where
    pred_one : (j : ℕ) → suc j ≡ 2 → j ≡ 1
    pred_one j h = omega (arith, h)

parse_pool-overruns_example : parse_pool true overrun_pool 2 1000001 0 no_counts ≡ none
parse_pool-overruns_example =
    parse_pool-overruns true overrun_pool 2 (omega arith) 1000001 0 no_counts last_skipped
      middle_not_skipped (omega arith) (omega arith)

none_skipped : (i : ℕ) → i ≤ 2 → skips false (pool i) ≡ false
unfolding skips
none_skipped i inside = never (pool i)
  where
    never : (o : Option Inspected) → skips false o ≡ false
    never none = refl
    never (some e) = refl

parse_pool-counts_example :
    (c : Counts) × (parse_pool false pool 2 3 0 no_counts ≡ some c)
    × (c.tot_events ≡ 2)
    × (c.amount_l1_processed ≡ 1)
    × (c.amount_l1_requested ≡ 1)
    × (c.incomplete_events ≡ 1)
parse_pool-counts_example = parse_pool-counts false pool 2 (omega arith) none_skipped

-- The second of three nodes, with two network queues and eight processors.
abbrev environment : Environment ℕ
environment = record {
  zmq_fails = false;
  storage_handler_fails = false;
  nodes = 20 ∷ 21 ∷ 22 ∷ [];
  my_ip = 21;
  number_of_queues = 2;
  hardware_concurrency = 8;
  use_shared_memory = false;
}

cpu_mask-apart_example : (cpu_mask 8 1 < 8) × (cpu_mask 8 1 ≡ cpu_mask 8 2 → ◌≡◌ {A = ℕ} 1 2)
cpu_mask-apart_example = cpu_mask-apart 8 1 2 (omega arith) (omega arith) (omega arith)

listed : (logical_node_id ◌==◌ (record environment { use_shared_memory = true }) == no_node) ≡ false
unfolding logical_node_id find_node
listed = refl

-- One source that sends MEPs, and one that is not expected to.
abbrev sources : Sources
sources = record {
  number_of_sources = 2;
  source_id = λ i. i + 4;
  expected_packs = λ i. i;
  missing_events = λ i. 3;
  received = record { meps = λ i. 7; bytes = λ i. 100 };
}

detector_data-read_example :
    read_entries (detector_data 0 sources sources)
    ≡ some (
        record { source_id = 5; meps = some 7; missing = 3; bytes = 100 }
        ∷ record { source_id = 4; meps = none; missing = 3; bytes = 100 }
        ∷ [])
detector_data-read_example = detector_data-read 0 sources sources

abbrev no_time : Timing
no_time = record { cumulative = 0; max_time = 0; vs_event_number = λ r c. 0 }
