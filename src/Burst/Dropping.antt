-- ===== src/Burst/Dropping.antt =====
-- na62-farm.cpp: the clean-up at the end of a burst in the life of an event.
use na62_farm.Base.{
  ℕ, ◌≡◌, ◌≢◌, Bool, true, Option, none, some, List, [], ◌∷◌, ◌==◌, ◌⊎◌, inl, inr, if◌then◌else◌,
  Bool-cases, arith, ==_false,
}
use na62_farm.EventBuilding.Library.{Event, Call, Library, Config}
use na62_farm.EventBuilding.State.{State, call, when}
use na62_farm.EventBuilding.Storage.{send_event}
use na62_farm.EventBuilding.Protocol.{building, requested, freed, phase}
use na62_farm.EventBuilding.Protocol.Assumed.{InProtocol}
use na62_farm.FrameTasks.Network.{Network}
use na62_farm.FrameTasks.State.{Farm}
use na62_farm.Burst.Times.{send_times-resets}
use na62_farm.Burst.Finished.{
  EndOfBurst, check_trigger_queue, clear_detector_statistics, report_and_reset_times,
  reset_all_counters, drop_unfinished, on_burst_finished,
}
use na62_farm.Burst.{Pooled, Dropped, drop_event, clean_slot, clean_slots}

-- The pool reports an event as unfinished only while it is being built or waits for LKr data,
abbrev pub IsOpen : List Call → Pooled → Type 0
IsOpen h p =
    p.is_unfinished ≡ true → (phase p.event h ≡ some building) ⊎ (phase p.event h ≡ some requested)

-- and holds an event in one slot only.
abbrev pub IsElsewhere : Event → List (Option Pooled) → Type 0
IsElsewhere e [] = Unit
IsElsewhere e (none ∷ l) = IsElsewhere e l
IsElsewhere e (some p ∷ l) = (e ≢ p.event) × IsElsewhere e l

abbrev pub IsPool : List Call → List (Option Pooled) → Type 0
IsPool h [] = Unit
IsPool h (none ∷ l) = IsPool h l
IsPool h (some p ∷ l) = IsOpen h p × IsElsewhere p.event l × IsPool h l

-- The pool is as it was if the phases of its events are.
IsPool-elsewhere :
    (e : Event) (h h' : List Call) (l : List (Option Pooled))
    → ((x : Event) → e ≢ x → phase x h' ≡ phase x h)
    → IsElsewhere e l
    → IsPool h l
    → IsPool h' l
IsPool-elsewhere e h h' [] same apart pool = tt
IsPool-elsewhere e h h' (none ∷ l) same apart pool = IsPool-elsewhere e h h' l same apart pool
IsPool-elsewhere e h h' (some p ∷ l) same apart pool = (
  λ u. ground (arith, same p.event apart.0, pool.0 u),
  pool.1,
  IsPool-elsewhere e h h' l same apart.1 pool.2,
)

IsPool-phases :
    (h h' : List Call) (l : List (Option Pooled))
    → ((x : Event) → phase x h' ≡ phase x h)
    → IsPool h l
    → IsPool h' l
IsPool-phases h h' [] same pool = tt
IsPool-phases h h' (none ∷ l) same pool = IsPool-phases h h' l same pool
IsPool-phases h h' (some p ∷ l) same pool =
    (λ u. ground (arith, same p.event, pool.0 u), pool.1, IsPool-phases h h' l same pool.2)

module _ (lib : Library) where
  drop_event-phase :
      (p : Pooled) (s : State)
      → (phase p.event s.calls ≡ some building) ⊎ (phase p.event s.calls ≡ some requested)
      → (x : Event)
      → phase x (drop_event lib p s).1.calls
        ≡ (if p.event == x then some freed else phase x s.calls)
  unfolding drop_event send_event
  drop_event-phase p s h x = ground arith

  clean_slots-InProtocol :
      (l : List (Option Pooled)) (d : Dropped)
      → IsPool d.builders.calls l
      → InProtocol d.builders
      → InProtocol (clean_slots lib l d).builders
  unfolding clean_slots clean_slot drop_event
  clean_slots-InProtocol [] d pool h = h
  clean_slots-InProtocol (none ∷ l) d pool h = clean_slots-InProtocol l d pool h
  clean_slots-InProtocol (some p ∷ l) d pool h = elim (Bool-cases p.is_unfinished) [
    | inl e ↦
        let after = drop_event-phase p d.builders (pool.0 e) in
        let rest =
          IsPool-elsewhere p.event d.builders.calls (drop_event lib p d.builders).1.calls l
            (λ x apart. ground (arith, after x, ==_false p.event x apart)) pool.1 pool.2 in
        rw (e, clean_slots) (clean_slots-InProtocol l _ rest (λ x. ground (arith, after x, h x)))
    | inr e ↦ rw (e, clean_slots) (clean_slots-InProtocol l d pool.2 h)
  ]

-- What is called around the clean-up works on no event.
check_trigger_queue-phase :
    (b : Bool) (n : ℕ) (s : State) (x : Event)
    → phase x (when b (check_trigger_queue n) s).1.calls ≡ phase x s.calls
unfolding check_trigger_queue
check_trigger_queue-phase b n s x = ground arith

after_clean_up : Bool → State → State
after_clean_up measure_time s =
    let s' = (report_and_reset_times measure_time (clear_detector_statistics s).1).1 in
    (call Call.reset_event_counters (call Call.reset_hlt_statistics s').1).1

after_clean_up-phase :
    (b : Bool) (s : State) (x : Event) → phase x (after_clean_up b s).calls ≡ phase x s.calls
unfolding after_clean_up report_and_reset_times clear_detector_statistics
after_clean_up-phase b s x =
    ground (
      arith,
      send_times-resets (unfold clear_detector_statistics in (clear_detector_statistics s).1),
    )

module _ (net : Network) (lib : Library) (config : Config) (end : EndOfBurst) where
  drop_unfinished-InProtocol :
      (s : State)
      → IsPool s.calls end.pool
      → InProtocol s
      → InProtocol (drop_unfinished net lib config end s).builders
  unfolding drop_unfinished
  drop_unfinished-InProtocol s pool h =
      let same = check_trigger_queue-phase config.use_shared_memory end.waiting_for_l1 s in
      let s' = (when config.use_shared_memory (check_trigger_queue end.waiting_for_l1) s).1 in
      clean_slots-InProtocol lib end.pool _ (IsPool-phases s.calls s'.calls end.pool same pool)
        (λ x. ground (arith, same x, h x))

  -- The end of a burst misuses no event: none is freed twice or used after it was freed.
  pub on_burst_finished-InProtocol :
      (s : Farm)
      → IsPool s.builders.calls end.pool
      → InProtocol s.builders
      → InProtocol (on_burst_finished net lib config end s).farm.builders
  unfolding on_burst_finished reset_all_counters after_clean_up
  on_burst_finished-InProtocol s pool h x =
      let d = (drop_unfinished net lib config end s.builders).builders in
      ground (
        arith,
        after_clean_up-phase config.measure_time d x,
        drop_unfinished-InProtocol s.builders pool h x,
      )
