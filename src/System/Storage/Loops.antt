-- ===== src/System/Storage/Loops.antt =====
-- eventBuilding/StorageHandler.cpp: the loop of `thread`, run alone, against the steps of the threads.
use na62_farm.Base.{
  All, ℕ, ◌≡◌, ◌≢◌, refl, sym, ap, ◌∙◌, subst, Option, none, some, List, [], ◌∷◌, ◌++◌, inl, inr,
  Bool-cases,
}
use mathlib.Core.List.{append-nil, append_assoc}
use na62_farm.EventBuilding.Library.{EventHdr, Library, Config}
use na62_farm.FrameTasks.Network.{Network}
use na62_farm.Mergers.{
  Mergers, Attempt, Sending, Outcomes, StorageTurn, send_event_data, send_popped, after_event,
  store_events,
}
use na62_farm.System.{Program}
use na62_farm.System.Progress.{IsProcessorStep}
use na62_farm.System.Storage.{
  Plant, pop_event, next_data, try_once, after_attempt, PlantRun, event_popped, message_failed,
  attempted, onward, begun, worked, shut_down,
}
use na62_farm.System.Storage.Attempts.{then_attempts, send_event_data-first, then-fault}
use na62_farm.System.Storage.Delivered.{outcome_of, outcomes_of}

-- The thread is done with the event.
abbrev pub IsOver : EventHdr × Sending → Type 0
IsOver (event, Sending.done) = Unit
IsOver (event, Sending.abandoned) = Unit
IsOver (event, _) = ⊥

first-no_fault :
    (event : EventHdr) (queue : List EventHdr) (rest : Mergers → Outcomes × List EventHdr × Mergers)
    (r : Sending × Mergers)
    → All IsOver (after_event event queue r rest).0
    → r.0 ≢ Sending.fault
first-no_fault event queue rest (Sending.done, m) over e = absurd (cc)
first-no_fault event queue rest (Sending.abandoned, m) over e = absurd (cc)
first-no_fault event queue rest (Sending.unfinished, m) over e = over.0
first-no_fault event queue rest (Sending.fault, m) over e = over.0

-- The queue, the sockets and the storage thread as the loop leaves them, and nothing else changed.
abbrev pub with_storage : Program → List EventHdr → Mergers → Option EventHdr → Plant
with_storage program queue mergers data_hdr = record {
  program = record program {
    farm = record program.farm { builders = record program.farm.builders { data_queue = queue } };
  };
  mergers = mergers;
  data_hdr = data_hdr;
}

module _ (mtu : ℕ) (net : Network) (lib : Library) (config : Config) where
  -- A run of steps of the task processors and of the storage thread.
  abbrev pub IsOwn : {p q : Plant} → PlantRun mtu net lib config p q → Type 0
  IsOwn begun = Unit
  IsOwn (onward run (worked q step)) = IsProcessorStep mtu net lib config step × IsOwn run
  IsOwn (onward run shut_down) = ⊥
  IsOwn (onward run _) = IsOwn run

module _ (mtu : ℕ) (net : Network) (lib : Library) (config : Config) (p : Plant)
    (before : Outcomes) where
  -- A state that is reached by such steps with these outcomes.
  abbrev pub Reached : Outcomes → Plant → Type 0
  Reached outcomes q =
      (run : PlantRun mtu net lib config p q) × (outcomes_of mtu net lib config before run
        ≡ outcomes)
      × IsOwn mtu net lib config run

  module _ (program : Program) (queue : List EventHdr) where
    -- The state after some attempts that gave a result.
    abbrev pub Sent : Outcomes → EventHdr → Sending × Mergers → Type 0
    Sent outcomes event r =
        Reached (outcomes ++ outcome_of event r.0)
          (with_storage program queue r.1 (next_data event r.0))

    once-Reached :
        (outcomes : Outcomes) (event : EventHdr) (attempt : Attempt) (m : Mergers)
        → (try_once event attempt m).0 ≢ Sending.fault
        → Reached outcomes (with_storage program queue m (some event))
        → Sent outcomes event (try_once event attempt m)
    unfolding after_attempt
    once-Reached outcomes event attempt m fine (run, e, own) = (
      onward run (attempted event attempt refl fine),
      ap (λ l. l ++ outcome_of event (try_once event attempt m).0) e,
      own,
    )

    then-Reached :
        (outcomes : Outcomes) (event : EventHdr) (l : List Attempt) (r : Sending × Mergers)
        → ((m : Mergers)
            → (send_event_data event l m).0 ≢ Sending.fault
            → Reached outcomes (with_storage program queue m (some event))
            → Sent outcomes event (send_event_data event l m))
        → (then_attempts event l r).0 ≢ Sending.fault
        → Sent outcomes event r
        → Sent outcomes event (then_attempts event l r)
    unfolding next_data
    then-Reached outcomes event l (Sending.done, m) k fine h = h
    then-Reached outcomes event l (Sending.abandoned, m) k fine h = h
    then-Reached outcomes event l (Sending.fault, m) k fine h = h
    then-Reached outcomes event l (Sending.unfinished, m) k fine (run, e, own) =
        k m fine (run, e ∙ append-nil outcomes, own)

    pub attempts-Reached :
        (outcomes : Outcomes) (event : EventHdr) (l : List Attempt) (m : Mergers)
        → (send_event_data event l m).0 ≢ Sending.fault
        → Reached outcomes (with_storage program queue m (some event))
        → Sent outcomes event (send_event_data event l m)
    unfolding send_event_data next_data
    attempts-Reached outcomes event [] m fine (run, e, own) =
        (run, e ∙ sym (append-nil outcomes), own)
    attempts-Reached outcomes event (attempt ∷ l) m fine h =
        let first = send_event_data-first event attempt l m in
        let fine' : (then_attempts event l (try_once event attempt m)).0 ≢ Sending.fault =
          λ e. fine (ap (λ r. r.0) first ∙ e) in
        subst (Sent outcomes event) (sym first) (
          then-Reached outcomes event l (try_once event attempt m)
            (attempts-Reached outcomes event l) fine'
            (once-Reached outcomes event attempt m (λ e. fine' (then-fault event l _ e)) h))

    turn-Reached :
        (outcomes : Outcomes) (event : EventHdr) (turn : StorageTurn) (m : Mergers)
        → (send_popped turn event m).0 ≢ Sending.fault
        → Reached outcomes (with_storage program (event ∷ queue) m none)
        → Sent outcomes event (send_popped turn event m)
    unfolding send_popped pop_event next_data
    turn-Reached outcomes event turn m fine (run, e, own) = elim (Bool-cases turn.message_fails) [
      | inl fails ↦
          let given_up : send_popped turn event m ≡ (Sending.abandoned, m) =
            rw (fails, send_popped) refl in
          subst (Sent outcomes event) (sym given_up) (
            onward run (message_failed event queue refl refl),
            ap (λ l. l ++ (event, Sending.abandoned) ∷ []) e,
            own,
          )
      | inr made ↦
          let sends : send_popped turn event m ≡ send_event_data event turn.attempts m =
            rw (made, send_popped) refl in
          subst (Sent outcomes event) (sym sends) (
            attempts-Reached outcomes event turn.attempts m (λ k. fine (ap (λ r. r.0) sends ∙ k))
              (onward run (event_popped event queue refl refl), e, own))
    ]

  after-Reached :
      (program : Program) (queue : List EventHdr) (outcomes : Outcomes) (event : EventHdr)
      (rest : Mergers → Outcomes × List EventHdr × Mergers) (r : Sending × Mergers)
      → ((outcomes' : Outcomes) (m : Mergers)
          → All IsOver (rest m).0
          → Reached outcomes' (with_storage program queue m none)
          → Reached (outcomes' ++ (rest m).0) (with_storage program (rest m).1 (rest m).2 none))
      → All IsOver (after_event event queue r rest).0
      → Sent program queue outcomes event r
      → Reached (outcomes ++ (after_event event queue r rest).0) (
          with_storage program
            (after_event event queue r rest).1
            (after_event event queue r rest).2
            none)
  unfolding next_data
  after-Reached program queue outcomes event rest (Sending.done, m) k over h =
      let (run, e, own) = k _ m over.1 h in
      (run, e ∙ append_assoc outcomes ((event, Sending.done) ∷ []) (rest m).0, own)
  after-Reached program queue outcomes event rest (Sending.abandoned, m) k over h =
      let (run, e, own) = k _ m over.1 h in
      (run, e ∙ append_assoc outcomes ((event, Sending.abandoned) ∷ []) (rest m).0, own)
  after-Reached program queue outcomes event rest (Sending.unfinished, m) k over h = absurd over.0
  after-Reached program queue outcomes event rest (Sending.fault, m) k over h = absurd over.0

  -- Whatever `thread` does with the queue and the sockets when it runs alone, as long as each event
  -- that it pops is delivered or given up, it does by steps of the threads: from any state with
  -- that queue in which it holds no event, they reach the state that it leaves, with the outcomes from
  -- before and its own.
  pub store_events-Reached :
      (program : Program) (turns : List StorageTurn) (queue : List EventHdr) (outcomes : Outcomes)
      (m : Mergers)
      → All IsOver (store_events turns queue m).0
      → Reached outcomes (with_storage program queue m none)
      → Reached
          (outcomes ++ (store_events turns queue m).0)
          (with_storage program (store_events turns queue m).1 (store_events turns queue m).2 none)
  unfolding store_events send_popped
  store_events-Reached program [] queue outcomes m over (run, e, own) =
      (run, e ∙ sym (append-nil outcomes), own)
  store_events-Reached program (turn ∷ turns) [] outcomes m over (run, e, own) =
      elim (Bool-cases turn.is_running) [
        | inl runs ↦
            rw (runs, store_events)
              (store_events-Reached program turns [] outcomes m (rw (runs, store_events) at over)
                (run, e, own))
        | inr ended ↦ rw (ended, store_events) (run, e ∙ sym (append-nil outcomes), own)
      ]
  store_events-Reached program (turn ∷ turns) (event ∷ queue) outcomes m over (run, e, own) =
      elim (Bool-cases turn.is_running) [
        | inl runs ↦
            let rest : Mergers → Outcomes × List EventHdr × Mergers =
              λ m'. store_events turns queue m' in
            let over' = rw (runs, store_events) at over in
            rw (runs, store_events)
              (after-Reached program queue outcomes event rest (send_popped turn event m)
                (λ o m'. store_events-Reached program turns queue o m') over'
                (turn-Reached program queue outcomes event turn m
                  (first-no_fault event queue rest (send_popped turn event m) over') (run, e, own)))
        | inr ended ↦ rw (ended, store_events) (run, e ∙ sym (append-nil outcomes), own)
      ]
