-- ===== src/Pool/Counted.antt =====
-- SharedMemory/PoolParser.cpp: the numbers of its report.
use na62_farm.Base.{
  ℕ, zero, suc, ◌+◌, ◌^◌, ◌≤◌, ◌<◌, ◌≡◌, refl, ap, ◌∙◌, Bool, true, false, Option, none, some,
  arith, if◌then◌else◌,
}
use na62_farm.Pool.{Inspected, Counts, no_counts, count_event, skips, next_index, parse_pool}
use na62_farm.Pool.Ends.{parse_pool-stops, before_bound, parse_pool-continues}

-- The number of the slots, from an index on, that a test accepts.
abbrev pub tally : (Option Inspected → Bool) → (ℕ → Option Inspected) → ℕ → ℕ → ℕ
tally test pool index zero = 0
tally test pool index (suc k) = (if test (pool index) then 1 else 0) + tally test pool (suc index) k

abbrev pub is_event : Option Inspected → Bool
is_event none = false
is_event (some e) = true

abbrev pub is_processed : Option Inspected → Bool
is_processed none = false
is_processed (some e) = e.is_l1_processed

abbrev pub is_requested : Option Inspected → Bool
is_requested none = false
is_requested (some e) = e.is_l1_requested

abbrev pub is_incomplete : Option Inspected → Bool
is_incomplete none = false
is_incomplete (some e) = e.is_unfinished

-- The counts with the slots from an index on.
abbrev count_slots : (ℕ → Option Inspected) → ℕ → ℕ → Counts → Counts
count_slots pool index zero c = c
count_slots pool index (suc k) c = count_slots pool (suc index) k (count_event (pool index) c)

-- One of the counters: what it is, and which slots it counts.
module _ (pool : ℕ → Option Inspected) (counter : Counts → ℕ) (test : Option Inspected → Bool)
    (counts : (o : Option Inspected) (c : Counts)
      → counter c + 1 < 2 ^ 32
      → counter (count_event o c) ≡ counter c + (if test o then 1 else 0)) where
  if-small : (b : Bool) → (if b then 1 else 0) ≤ 1
  if-small true = omega arith
  if-small false = omega arith

  counter-count_slots :
      (index k : ℕ) (c : Counts)
      → counter c + k < 2 ^ 32
      → counter (count_slots pool index k c) ≡ counter c + tally test pool index k
  counter-count_slots index zero c small = omega arith
  counter-count_slots index (suc k) c small =
      let one = counts (pool index) c (omega (arith, small)) in
      omega (
        arith,
        one,
        counter-count_slots (suc index) k (count_event (pool index) c)
            (omega (arith, small, one, if-small (test (pool index)))),
      )

  counter-pool :
      (n : ℕ)
      → n < 2 ^ 32
      → counter no_counts ≡ 0
      → counter (count_slots pool 0 n no_counts) ≡ tally test pool 0 n
  counter-pool n small e =
      omega (arith, e, counter-count_slots 0 n no_counts (omega (arith, e, small)))

module _ (o : Option Inspected) (c : Counts) where
  tot_events-counts :
      c.tot_events + 1 < 2 ^ 32
      → (count_event o c).tot_events ≡ c.tot_events + (if is_event o then 1 else 0)
  unfolding count_event
  tot_events-counts small = ground (arith, small)

  processed-counts :
      c.amount_l1_processed + 1 < 2 ^ 32
      → (count_event o c).amount_l1_processed
        ≡ c.amount_l1_processed + (if is_processed o then 1 else 0)
  unfolding count_event
  processed-counts small = ground (arith, small)

  requested-counts :
      c.amount_l1_requested + 1 < 2 ^ 32
      → (count_event o c).amount_l1_requested
        ≡ c.amount_l1_requested + (if is_requested o then 1 else 0)
  unfolding count_event
  requested-counts small = ground (arith, small)

  incomplete-counts :
      c.incomplete_events + 1 < 2 ^ 32
      → (count_event o c).incomplete_events
        ≡ c.incomplete_events + (if is_incomplete o then 1 else 0)
  unfolding count_event
  incomplete-counts small = ground (arith, small)

module _ (logs : Bool) (pool : ℕ → Option Inspected) (largest : ℕ) (small : largest + 2 < 2 ^ 32)
    (none_skipped : (i : ℕ) → i ≤ largest → skips logs (pool i) ≡ false) where
  one_further : (index : ℕ) → index ≤ largest → next_index logs (pool index) index ≡ suc index
  unfolding next_index
  one_further index inside = rw (none_skipped index inside) (omega (arith, small))

  parse_pool-count_slots :
      (k index : ℕ) (c : Counts)
      → index + k ≡ largest + 1
      → parse_pool logs pool largest k index c ≡ some (count_slots pool index k c)
  parse_pool-count_slots zero index c e =
      parse_pool-stops logs pool largest (omega (arith, small)) zero index c (omega (arith, e))
  parse_pool-count_slots (suc k) index c e =
      let wide : largest + 2 < 2 ^ 64 = omega (arith, small) in
      let inside : index ≤ largest = omega (arith, e) in
      parse_pool-continues logs pool largest wide k index c
        (before_bound logs pool largest wide index inside)
      ∙ ap (λ i. parse_pool logs pool largest k i (count_event (pool index) c))
          (one_further index inside)
      ∙ parse_pool-count_slots k (suc index) (count_event (pool index) c) (omega (arith, e))

  -- Where no event of the pool is unfinished, or the macro does not evaluate its argument, the loop
  -- looks at every slot once: it ends after one round for each of them, and the four numbers of the
  -- report are those of the events, of those processed and requested at L1, and of the unfinished
  -- ones, for fewer than 2^32 - 2 slots.
  pub parse_pool-counts :
      (c : Counts) × (parse_pool logs pool largest (largest + 1) 0 no_counts ≡ some c)
      × (c.tot_events ≡ tally is_event pool 0 (largest + 1))
      × (c.amount_l1_processed ≡ tally is_processed pool 0 (largest + 1))
      × (c.amount_l1_requested ≡ tally is_requested pool 0 (largest + 1))
      × (c.incomplete_events ≡ tally is_incomplete pool 0 (largest + 1))
  parse_pool-counts =
      let n = largest + 1 in
      let fits : n < 2 ^ 32 = omega (arith, small) in
      (
        count_slots pool 0 n no_counts,
        parse_pool-count_slots n 0 no_counts (omega arith),
        counter-pool pool (λ c. c.tot_events) is_event tot_events-counts n fits refl,
        counter-pool pool (λ c. c.amount_l1_processed) is_processed processed-counts n fits refl,
        counter-pool pool (λ c. c.amount_l1_requested) is_requested requested-counts n fits refl,
        counter-pool pool (λ c. c.incomplete_events) is_incomplete incomplete-counts n fits refl,
      )
