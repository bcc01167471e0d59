-- ===== src/Pool.antt =====
-- SharedMemory/PoolParser.cpp: the thread that counts the events of the pool, for one round of its
-- outer loop, in which the pool and its largest touched index do not change.
pub mod Ends
pub mod Counted
use na62_farm.Base.{ℕ, zero, suc, ◌+◌, Bool, false, ◌&&◌, Option, none, some, ◌==◌, if◌then◌else◌}
use na62_farm.Base.Words.{u32, u64}

-- What the getters of an event return.
pub record Inspected : Type 0 where
  pub is_unfinished : Bool
  pub is_l1_processed : Bool
  pub is_l1_requested : Bool

-- `totEvents_`, `amount_l1_pocessed`, `amount_l1_requested` and `incompleteEvents_`
pub record Counts : Type 0 where
  pub tot_events : ℕ
  pub amount_l1_processed : ℕ
  pub amount_l1_requested : ℕ
  pub incomplete_events : ℕ

abbrev pub no_counts : Counts
no_counts = record {
  tot_events = 0;
  amount_l1_processed = 0;
  amount_l1_requested = 0;
  incomplete_events = 0;
}

abbrev pub count_if : Bool → ℕ → ℕ
count_if b n = if b then u32 (n + 1) else n

-- the counting of the body of the loop; `none` is a null pointer
unfoldable pub count_event : Option Inspected → Counts → Counts
count_event none c = c
count_event (some e) c = record {
  tot_events = u32 (c.tot_events + 1);
  amount_l1_processed = count_if e.is_l1_processed c.amount_l1_processed;
  amount_l1_requested = count_if e.is_l1_requested c.amount_l1_requested;
  incomplete_events = count_if e.is_unfinished c.incomplete_events;
}

-- Whether the body of the loop advances the index by itself: `logs` says whether `LOG_ERROR`, a
-- macro of the library, evaluates its argument `++index`.
unfoldable pub skips : Bool → Option Inspected → Bool
skips logs none = false
skips logs (some e) = logs && e.is_unfinished

unfoldable pub next_index : Bool → Option Inspected → ℕ → ℕ
next_index logs o index = u64 (if skips logs o then index + 2 else index + 1)

module _ (logs : Bool) (pool : ℕ → Option Inspected) (largest : ℕ) where
  -- The loop over the pool from an index, up to `getLargestTouchedEventnumberIndex() + 1`; `none`
  -- is a loop that has not ended after as many rounds as the fuel says.
  unfoldable pub parse_pool : (fuel : ℕ) → ℕ → Counts → Option Counts
  parse_pool zero index c = if index == u64 (largest + 1) then some c else none
  parse_pool (suc fuel) index c =
      let rest =
        parse_pool fuel (next_index logs (pool index) index) (count_event (pool index) c) in
      if index == u64 (largest + 1) then some c else rest
