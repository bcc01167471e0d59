-- ===== src/EventBuilding/Decisions/L1.antt =====
-- eventBuilding/L1Builder.cpp does what is decided.
use na62_farm.Base.{ℕ, Bool, true, false, ◌∷◌, refl, inl, inr, ◌==◌, if◌then◌else◌, Bool-cases}
use na62_farm.Base.Words.{u8}
use na62_farm.EventBuilding.Library.{Event, Call, Library, Config}
use na62_farm.EventBuilding.State.{State, ◌>>◌, when, choose}
use na62_farm.EventBuilding.Accounting.{freed_events, requested_events}
use na62_farm.EventBuilding.L1Builder.{
  send_l1_request, measure_l1_processing, bypass_l1, process_l1_shared, l0_l1_trigger, bypass_word,
  l1_verdict, process_l1_local, process_l1,
}
use na62_farm.EventBuilding.Decisions.{
  drops, IsDone, Yields, accepted_decision, local_decision, shared_decision, l1_decision,
}
use na62_farm.EventBuilding.Decisions.L2.{process_l2-decides}

module _ (lib : Library) (config : Config) (e : Event) where
  bypass_l1-decides :
      (s : State)
      → IsDone
          (accepted_decision lib config e (
            Call.set_l1_processed e
              (l0_l1_trigger (u8 (lib.l0_trigger_type_word s.calls e)) bypass_word)
            ∷ Call.update_l1_statistics e bypass_word
            ∷ s.calls))
          e
          s.data_queue
          s.l1_requests
          (freed_events s.calls)
          (requested_events s.calls)
          (bypass_l1 lib config e s).1
  unfolding bypass_l1 send_l1_request
  bypass_l1-decides s = elim (Bool-cases (config.expected_l1_packets == 0)) [
    | inl no_sources ↦ rw (no_sources, bypass_l1) (process_l2-decides lib config e _)
    | inr sources ↦ rw (sources, bypass_l1) (refl, refl, refl, refl)
  ]

  process_l1_shared-decides :
      (s : State)
      → Yields lib config e
          (shared_decision lib config e s.calls)
          s
          (process_l1_shared lib config e)
  unfolding process_l1_shared
  process_l1_shared-decides s = elim (Bool-cases (lib.store_succeeds s.calls e)) [
    | inl stored ↦ rw (stored, process_l1_shared) (refl, refl, refl, refl, refl)
    | inr full ↦ rw (full, process_l1_shared) (bypass_l1-decides _)
  ]

  l1_verdict-decides :
      (word : ℕ) (s : State)
      → Yields lib config e
          (if word == 0 then drops else accepted_decision lib config e s.calls)
          s
          (l1_verdict lib config e word)
  unfolding l1_verdict send_l1_request
  l1_verdict-decides word s = elim (Bool-cases (word == 0)) [
    | inl none_set ↦ rw (none_set, l1_verdict) (refl, refl, refl, refl, refl)
    | inr some_set ↦ elim (Bool-cases (config.expected_l1_packets == 0)) [
      | inl no_sources ↦ rw (some_set, no_sources, l1_verdict) (process_l2-decides lib config e s)
      | inr sources ↦ rw (some_set, sources, l1_verdict) (refl, refl, refl, refl)
    ]
  ]

  measured-decides :
      (measured : Bool) (word : ℕ) (s : State)
      → Yields lib config e
          (if word == 0 then drops else accepted_decision lib config e s.calls)
          s
          (when measured (measure_l1_processing lib config e) >> l1_verdict lib config e word)
  unfolding measure_l1_processing
  measured-decides true word s = l1_verdict-decides word _
  measured-decides false word s = l1_verdict-decides word s

  process_l1_local-decides :
      (s : State)
      → Yields lib config e (local_decision lib config e s.calls) s (process_l1_local lib config e)
  unfolding process_l1_local
  process_l1_local-decides s =
      let l0_word = u8 (lib.l0_trigger_type_word s.calls e) in
      let word = u8 (lib.l1_trigger s.calls e) in
      measured-decides config.measure_time word (record s {
        calls =
            Call.set_l1_processed e (l0_l1_trigger l0_word word)
            ∷ Call.update_l1_statistics e word
            ∷ Call.l1_compute e
            ∷ s.calls;
      })

  either_build-decides :
      (shared : Bool) (s : State)
      → Yields lib config e
          (if shared
            then shared_decision lib config e s.calls
            else local_decision lib config e s.calls)
          s
          (choose shared (process_l1_shared lib config e) (process_l1_local lib config e))
  either_build-decides true s = process_l1_shared-decides s
  either_build-decides false s = process_l1_local-decides s

  -- What `processL1` does with a built event, in both builds and on every branch, is what the triggers
  -- decide, each asked after the calls that were made by then. It writes exactly the events that L2
  -- accepts and that wait for no more data, or all if L2 is switched off, if L1 gave them a trigger
  -- word and there are no sources of LKr data; each of them has one header at the end of the queue. If
  -- there are such sources, the data of the event is requested, once and with the right flag, one
  -- request is counted, and nothing is queued or freed. An event without a trigger word of L1, and any
  -- other that goes to L2, is freed once, by the last call, and no data is requested. With the shared
  -- memory an event is stored for a trigger process if there is room for it, and nothing else is done
  -- but counting it; it counts as accepted by L1 if there is none.
  pub process_l1-decides :
      (s : State)
      → Yields lib config e (l1_decision lib config e s.calls) s (process_l1 lib config e)
  unfolding process_l1
  process_l1-decides s = either_build-decides config.use_shared_memory s
