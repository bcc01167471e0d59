-- ===== src/Pool/Ends.antt =====
-- SharedMemory/PoolParser.cpp: when the loop over the pool ends, and what it has counted then.
use native.Mathlib.Decide.{ℕ_discrete}
use na62_farm.Base.{
  ℕ, zero, suc, ◌+◌, ◌*◌, ◌^◌, ◌≤◌, ◌<◌, ◌≡◌, refl, sym, subst, ◌∙◌, Bool, true, false, Option,
  none, some, ◌==◌, Bool-cases, inl, inr, arith,
}
use na62_farm.Base.Words.{u64}
use na62_farm.Pool.{Inspected, Counts, count_event, skips, next_index, parse_pool}

module _ (logs : Bool) (pool : ℕ → Option Inspected) (largest : ℕ)
    (small : largest + 2 < 2 ^ 64) where
  at_bound : (index : ℕ) → index ≡ largest + 1 → (index == u64 (largest + 1)) ≡ true
  at_bound index e = ground (arith, small)

  pub before_bound : (index : ℕ) → index ≤ largest → (index == u64 (largest + 1)) ≡ false
  before_bound index inside = ground (arith, small)

  pub parse_pool-stops :
      (fuel index : ℕ) (c : Counts)
      → index ≡ largest + 1
      → parse_pool logs pool largest fuel index c ≡ some c
  unfolding parse_pool
  parse_pool-stops zero index c e = rw (at_bound index e) refl
  parse_pool-stops (suc fuel) index c e = rw (at_bound index e) refl

  pub parse_pool-continues :
      (fuel index : ℕ) (c : Counts)
      → (index == u64 (largest + 1)) ≡ false
      → parse_pool logs pool largest (suc fuel) index c
        ≡ parse_pool logs pool largest fuel
            (next_index logs (pool index) index)
            (count_event (pool index) c)
  unfolding parse_pool
  parse_pool-continues fuel index c apart = rw apart refl

  skipped-not_last :
      (index : ℕ)
      → skips logs (pool largest) ≡ false
      → skips logs (pool index) ≡ true
      → ¬ (index ≡ largest)
  skipped-not_last index last s e = absurd (cc)

  next_index-inside :
      (index : ℕ)
      → skips logs (pool largest) ≡ false
      → index ≤ largest
      → (index < next_index logs (pool index) index)
        × (next_index logs (pool index) index ≤ largest + 1)
  unfolding next_index
  next_index-inside index last inside = elim (Bool-cases (skips logs (pool index))) [
    | inl s ↦
        let ne = skipped-not_last index last s in
        rw s (ground (arith, small, ne), ground (arith, small, ne))
    | inr s ↦ rw s (omega (arith, small), omega (arith, small))
  ]

  -- The loop over the pool ends, whatever it has counted before: as many rounds as there are slots
  -- left are enough, as far as the last touched slot holds no unfinished event, or the macro does not
  -- evaluate its argument, and the pool has fewer than 2^64 - 2 slots.
  pub parse_pool-ends :
      (fuel index : ℕ) (c : Counts)
      → skips logs (pool largest) ≡ false
      → index ≤ largest + 1
      → largest + 1 ≤ index + fuel
      → (c' : Counts) × (parse_pool logs pool largest fuel index c ≡ some c')
  parse_pool-ends zero index c last inside enough = (c, parse_pool-stops zero index c (omega arith))
  parse_pool-ends (suc fuel) index c last inside enough = elim (ℕ_discrete index (largest + 1)) [
    | yes e ↦ (c, parse_pool-stops (suc fuel) index c e)
    | no ne ↦
        let (below, above) = next_index-inside index last (omega arith) in
        let (c', e) =
          parse_pool-ends fuel (next_index logs (pool index) index) (count_event (pool index) c)
            last above (omega (arith, below)) in
        (c', parse_pool-continues fuel index c (before_bound index (omega arith)) ∙ e)
  ]

  next_index-after :
      (index : ℕ)
      → index + 2 < 2 ^ 64
      → (index < next_index logs (pool index) index)
        × (next_index logs (pool index) index ≤ index + 2)
  unfolding next_index
  next_index-after index far = elim (Bool-cases (skips logs (pool index))) [
    | inl s ↦ rw s (omega (arith, far), omega (arith, far))
    | inr s ↦ rw s (omega (arith, far), omega (arith, far))
  ]

  past_bound :
      (index : ℕ) → largest + 1 < index → index < 2 ^ 64 → (index == u64 (largest + 1)) ≡ false
  past_bound index passed far = ground (arith, small)

  -- Once the index has passed the bound, the loop goes on until the index wraps around.
  passed-continues :
      (fuel index : ℕ) (c : Counts)
      → largest + 1 < index
      → index + 2 * fuel < 2 ^ 64
      → parse_pool logs pool largest fuel index c ≡ none
  unfolding parse_pool
  passed-continues zero index c passed far = rw (past_bound index passed (omega (arith, far))) refl
  passed-continues (suc fuel) index c passed far =
      let (below, above) = next_index-after index (omega (arith, far)) in
      parse_pool-continues fuel index c (past_bound index passed (omega (arith, far)))
      ∙ passed-continues fuel (next_index logs (pool index) index) (count_event (pool index) c)
          (omega (arith, passed, below)) (omega (arith, far, above))

  skipped : skips logs (pool largest) ≡ true → next_index logs (pool largest) largest ≡ largest + 2
  unfolding next_index
  skipped s = rw s (omega (arith, small))

  last-overruns :
      (fuel : ℕ) (c : Counts)
      → skips logs (pool largest) ≡ true
      → largest + 2 + 2 * fuel < 2 ^ 64
      → parse_pool logs pool largest (suc fuel) largest c ≡ none
  last-overruns fuel c s far =
      parse_pool-continues fuel largest c (before_bound largest (omega arith))
      ∙ passed-continues fuel (next_index logs (pool largest) largest)
          (count_event (pool largest) c) (omega (arith, skipped s)) (omega (arith, far, skipped s))

  next_index-to_last :
      (index : ℕ)
      → (suc index ≡ largest → skips logs (pool index) ≡ false)
      → index < largest
      → (next_index logs (pool index) index ≤ largest)
        × (index < next_index logs (pool index) index)
  unfolding next_index
  next_index-to_last index last_but_one inside = elim (Bool-cases (skips logs (pool index))) [
    | inl s ↦ elim (ℕ_discrete (suc index) largest) [
      | yes e ↦ absurd (true_or_false (sym s ∙ last_but_one e))
      | no ne ↦ rw s (omega (arith, small, ne), omega (arith, small, ne))
    ]
    | inr s ↦ rw s (omega (arith, small), omega (arith, small))
  ]
    where
      true_or_false : true ≡ false → ⊥
      true_or_false e = absurd (cc)

  -- The loop passes its bound, from whatever slot up to the last touched one it starts: when the
  -- last touched slot holds an unfinished event, the slot before it does not, and the macro evaluates
  -- its argument, the loop comes to the last slot, the index skips the bound, and the loop goes on over
  -- what lies behind the touched slots, until the index is near 2^64: no smaller number of rounds ends
  -- it.
  pub parse_pool-overruns :
      (fuel index : ℕ) (c : Counts)
      → skips logs (pool largest) ≡ true
      → ((i : ℕ) → suc i ≡ largest → skips logs (pool i) ≡ false)
      → index ≤ largest
      → largest + 2 + 2 * fuel < 2 ^ 64
      → parse_pool logs pool largest fuel index c ≡ none
  unfolding parse_pool
  parse_pool-overruns zero index c last last_but_one inside far =
      rw (before_bound index inside) refl
  parse_pool-overruns (suc fuel) index c last last_but_one inside far =
      elim (ℕ_discrete index largest) [
        | yes e ↦
            subst (λ i. parse_pool logs pool largest (suc fuel) i c ≡ none) (sym e)
              (last-overruns fuel c last (omega (arith, far)))
        | no ne ↦
            let (near, further) =
              next_index-to_last index (last_but_one index) (omega (arith, ne, inside)) in
            parse_pool-continues fuel index c (before_bound index inside)
            ∙ parse_pool-overruns fuel (next_index logs (pool index) index)
                (count_event (pool index) c) last last_but_one near (omega (arith, far))
      ]
