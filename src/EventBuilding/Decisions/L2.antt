-- ===== src/EventBuilding/Decisions/L2.antt =====
-- eventBuilding/L2Builder.cpp does what is decided.
use na62_farm.Base.{not, ◌&&◌, List, [], ◌∷◌, ◌++◌, ◌≡◌, refl, inl, inr, Bool-cases, arith}
use na62_farm.EventBuilding.Library.{Event, EventHdr, Library, Config}
use na62_farm.EventBuilding.State.{State}
use na62_farm.EventBuilding.Storage.{send_event}
use na62_farm.EventBuilding.Verdicts.{before_verdict}
use na62_farm.EventBuilding.Accounting.{freed_events, requested_events}
use na62_farm.EventBuilding.L2Builder.{
  measure_l2_processing, measure_serialization, send_accepted, run_l2_trigger, run_non_z_suppressed,
  write_out, process_l2,
}
use na62_farm.EventBuilding.Decisions.{Decision, writes, Yields, after_l2, l2_verdict, l2_decision}

module _ (lib : Library) (config : Config) (e : Event) where
  before_verdict-state :
      (s : State)
      → ((before_verdict lib config e s).1.calls ≡ after_l2 lib config e s.calls)
        × ((before_verdict lib config e s).1.data_queue ≡ s.data_queue)
        × ((before_verdict lib config e s).1.l1_requests ≡ s.l1_requests)
        × ((before_verdict lib config e s).0
            ≡ not (lib.is_waiting_for_non_z_suppressed (after_l2 lib config e s.calls) e)
              && lib.is_l2_accepted (after_l2 lib config e s.calls) e)
  unfolding before_verdict measure_l2_processing
  before_verdict-state s = elim (Bool-cases config.measure_time) [
    | inl on ↦ rw (on, before_verdict) (refl, refl, refl, refl)
    | inr off ↦ rw (off, before_verdict) (refl, refl, refl, refl)
  ]

  send_accepted-queue :
      (s : State)
      → ((send_accepted lib config e s).1.data_queue
          ≡ s.data_queue ++ lib.serialized s.calls e ∷ [])
        × ((send_accepted lib config e s).1.l1_requests ≡ s.l1_requests)
        × (freed_events (send_accepted lib config e s).1.calls ≡ freed_events s.calls)
        × (requested_events (send_accepted lib config e s).1.calls ≡ requested_events s.calls)
  unfolding send_accepted send_event measure_serialization
  send_accepted-queue s = ground arith

  -- what is added to the queue
  abbrev queue_after : Decision → List EventHdr → List EventHdr
  queue_after (writes header) q = q ++ header ∷ []
  queue_after _ q = q

  run_l2_trigger-queue :
      (s : State)
      → ((run_l2_trigger lib config e s).1.data_queue
          ≡ queue_after (l2_verdict lib config e (after_l2 lib config e s.calls)) s.data_queue)
        × ((run_l2_trigger lib config e s).1.l1_requests ≡ s.l1_requests)
        × (freed_events (run_l2_trigger lib config e s).1.calls ≡ freed_events s.calls)
        × (requested_events (run_l2_trigger lib config e s).1.calls ≡ requested_events s.calls)
  unfolding run_l2_trigger before_verdict
  run_l2_trigger-queue s =
      ground (arith, before_verdict-state s, send_accepted-queue (before_verdict lib config e s).1)

  run_non_z_suppressed-queue :
      (s : State)
      → ((run_non_z_suppressed lib config e s).1.data_queue ≡ s.data_queue)
        × ((run_non_z_suppressed lib config e s).1.l1_requests ≡ s.l1_requests)
        × (freed_events (run_non_z_suppressed lib config e s).1.calls ≡ freed_events s.calls)
        × (requested_events (run_non_z_suppressed lib config e s).1.calls
            ≡ requested_events s.calls)
  unfolding run_non_z_suppressed
  run_non_z_suppressed-queue s = ground arith

  pub process_l2-decides :
      (s : State)
      → Yields lib config e (l2_decision lib config e s.calls) s (process_l2 lib config e)
  unfolding process_l2 write_out send_event
  process_l2-decides s = elim (Bool-cases config.is_l2_active) [
    | inl on ↦ elim (Bool-cases (lib.is_waiting_for_non_z_suppressed s.calls e)) [
      | inl waits ↦ rw (on, waits, process_l2) (ground (arith, run_non_z_suppressed-queue s))
      | inr built ↦ rw (on, built, process_l2) (ground (arith, run_l2_trigger-queue s))
    ]
    | inr off ↦ rw (off, process_l2) (refl, refl, refl, refl, refl)
  ]
