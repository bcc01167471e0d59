-- ===== src/Burst/Cleanup.antt =====
-- na62-farm.cpp: what the clean-up at the end of a burst does to the events.
use na62_farm.Base.{
  sym, Bool, true, false, subst, ◌++◌, ◌&&◌, sum_by, sum_by-perm, ℕ, ◌+◌, ◌≤◌, ◌<◌, ◌^◌, ◌≡◌, refl,
  Option, none, some, List, [], ◌∷◌, if◌then◌else◌, Bool-cases, inl, inr, arith,
}
use mathlib.Core.List.{append_assoc, filter_map, Permᴰ}
use mathlib.Core.List.Permᴰ
use na62_farm.EventBuilding.Library.{Event, EventHdr, Library}
use na62_farm.EventBuilding.State.{State}
use na62_farm.EventBuilding.Storage.{send_event}
use na62_farm.EventBuilding.Accounting.{Accounts, freed_events}
use na62_farm.Burst.{Pooled, Dropped, drop_event, clean_slot, clean_slots}

-- Whether a slot holds an unfinished event, and one whose LKr data was requested, as 0 or 1.
abbrev pub is_dropped : Option Pooled → ℕ
is_dropped none = 0
is_dropped (some p) = if p.is_unfinished then 1 else 0

abbrev pub is_requested : Option Pooled → ℕ
is_requested none = 0
is_requested (some p) = if p.is_unfinished && p.is_l1_requested then 1 else 0

-- The event of a slot, if it is unfinished.
abbrev pub dropped_event : Option Pooled → Option Event
dropped_event none = none
dropped_event (some p) = if p.is_unfinished then some p.event else none

module _ (lib : Library) where
  sequence-counts :
      (l : List (Option Pooled)) (d : Dropped)
      → d.incomplete + sum_by is_dropped l < 2 ^ 32
      → d.with_l1_request ≤ d.incomplete
      → ((clean_slots lib l d).incomplete ≡ d.incomplete + sum_by is_dropped l)
        × ((clean_slots lib l d).with_l1_request ≡ d.with_l1_request + sum_by is_requested l)
        × ((clean_slots lib l d).with_l1_request ≤ (clean_slots lib l d).incomplete)
  unfolding clean_slots clean_slot
  sequence-counts [] d small h = ground arith
  sequence-counts (none ∷ l) d small h =
      ground (arith, sequence-counts l d (omega (arith, small)) h)
  sequence-counts (some p ∷ l) d small h =
      ground (arith, sequence-counts l (clean_slot lib (some p) d))

  -- In whatever order the iterations over the pool run: `incomplete_events` is the number of the
  -- unfinished events of the pool, `incomplete_events_with_l1_request_sent` the number of those whose
  -- LKr data was requested, and the second is never more than the first, so that the difference in the
  -- log does not wrap, for fewer than 2^32 events and counters that start at zero.
  pub clean_slots-counts :
      (pool order : List (Option Pooled)) (d : Dropped)
      → Permᴰ order pool
      → d.incomplete ≡ 0
      → d.with_l1_request ≡ 0
      → sum_by is_dropped pool < 2 ^ 32
      → ((clean_slots lib order d).incomplete ≡ sum_by is_dropped pool)
        × ((clean_slots lib order d).with_l1_request ≡ sum_by is_requested pool)
        × ((clean_slots lib order d).with_l1_request ≤ (clean_slots lib order d).incomplete)
  clean_slots-counts pool order d same none_yet no_request small =
      let dropped = sum_by-perm is_dropped same in
      let (a, b, c) =
        sequence-counts order d (omega (arith, none_yet, dropped, small))
          (omega (arith, none_yet, no_request)) in
      (
        omega (arith, a, none_yet, dropped),
        omega (arith, b, no_request, sum_by-perm is_requested same),
        c,
      )

  drop_event-freed :
      (p : Pooled) (s : State)
      → freed_events (drop_event lib p s).1.calls ≡ p.event ∷ freed_events s.calls
  unfolding drop_event send_event
  drop_event-freed p s = ground arith

  clean_slot-freed :
      (p : Pooled) (d : Dropped)
      → freed_events (clean_slot lib (some p) d).builders.calls ≡ (
          if p.is_unfinished
          then p.event ∷ freed_events d.builders.calls
          else freed_events d.builders.calls)
  unfolding clean_slot
  clean_slot-freed p d = ground (arith, drop_event-freed p d.builders)

  filter_map-dropped_event :
      (p : Pooled) (l : List (Option Pooled))
      → filter_map dropped_event (some p ∷ l) ≡ (
          if p.is_unfinished
          then p.event ∷ filter_map dropped_event l
          else filter_map dropped_event l)
  unfolding filter_map
  filter_map-dropped_event p l = elim (Bool-cases p.is_unfinished) [
    | inl e ↦ rw e refl
    | inr e ↦ rw e refl
  ]

  skip-Perm :
      (b : Bool) (e : Event) (l freed : List Event)
      → Permᴰ (l ++ (if b then e ∷ freed else freed)) ((if b then e ∷ l else l) ++ freed)
  skip-Perm true e l freed = Permᴰ.middle e l freed
  skip-Perm false e l freed = Permᴰ.refl (l ++ freed)

  sequence-freed :
      (l : List (Option Pooled)) (d : Dropped)
      → Permᴰ
          (freed_events (clean_slots lib l d).builders.calls)
          (filter_map dropped_event l ++ freed_events d.builders.calls)
  unfolding clean_slots clean_slot filter_map
  sequence-freed [] d = Permᴰ.refl (freed_events d.builders.calls)
  sequence-freed (none ∷ l) d = sequence-freed l d
  sequence-freed (some p ∷ l) d =
      let cleaned = clean_slot lib (some p) d in
      let after = freed_events (clean_slots lib l cleaned).builders.calls in
      let before = freed_events d.builders.calls in
      let others = filter_map dropped_event l in
      subst (λ x. Permᴰ after (x ++ before)) (sym (filter_map-dropped_event p l))
        (Permᴰ.trans
          (subst (λ x. Permᴰ after (others ++ x)) (clean_slot-freed p d) (sequence-freed l cleaned))
          (skip-Perm p.is_unfinished p.event others before))

  -- In whatever order the iterations over the pool run: the clean-up frees exactly the unfinished
  -- events of the pool, each once, and nothing else.
  pub clean_slots-freed :
      (pool order : List (Option Pooled)) (d : Dropped)
      → Permᴰ order pool
      → Permᴰ
          (freed_events (clean_slots lib order d).builders.calls)
          (filter_map dropped_event pool ++ freed_events d.builders.calls)
  clean_slots-freed pool order d same =
      Permᴰ.trans (sequence-freed order d)
        (Permᴰ.append_right (freed_events d.builders.calls) (Permᴰ.filter_map dropped_event same))

  drop_event-Accounts :
      (taken : List EventHdr) (p : Pooled) (s : State)
      → Accounts lib taken s
      → Accounts lib taken (drop_event lib p s).1
  unfolding drop_event send_event
  drop_event-Accounts taken p s h =
      ground (arith, append_assoc taken s.data_queue (lib.serialized s.calls p.event ∷ []))

  -- The clean-up keeps the accounts: the queue of the storage handler gets the header of each event
  -- serialized, those of unfinished last events of the burst included.
  pub clean_slots-Accounts :
      (taken : List EventHdr) (l : List (Option Pooled)) (d : Dropped)
      → Accounts lib taken d.builders
      → Accounts lib taken (clean_slots lib l d).builders
  unfolding clean_slots clean_slot drop_event
  clean_slots-Accounts taken [] d h = h
  clean_slots-Accounts taken (none ∷ l) d h = clean_slots-Accounts taken l d h
  clean_slots-Accounts taken (some p ∷ l) d h = elim (Bool-cases p.is_unfinished) [
    | inl e ↦
        rw (e, clean_slots)
          (clean_slots-Accounts taken l _ (drop_event-Accounts taken p d.builders h))
    | inr e ↦ rw (e, clean_slots) (clean_slots-Accounts taken l d h)
  ]
