-- ===== src/EventBuilding/Protocol/L2.antt =====
-- eventBuilding/L2Builder.cpp in the life of an event.
use na62_farm.Base.{some, ◌≡◌, ◌==◌, ◌⊎◌, if◌then◌else◌, arith}
use na62_farm.EventBuilding.Library.{Event, Library, Config}
use na62_farm.EventBuilding.State.{State}
use na62_farm.EventBuilding.Storage.{send_event}
use na62_farm.EventBuilding.L2Builder.{
  measure_l2_processing, measure_serialization, send_accepted, run_l2_trigger, run_non_z_suppressed,
  write_out, process_l2,
}
use na62_farm.EventBuilding.Protocol.{
  Phase, l1_done, requested, l2_done, stored, freed, phase, Takes,
}

-- The phases in which L2 may start: L1 has passed, and the data of the LKr is not needed or there.
abbrev pub AfterL1 : Phase → Type 0
AfterL1 p = (p ≡ l1_done) ⊎ (p ≡ requested)

module _ (lib : Library) (config : Config) (e : Event) where
  send_accepted-Takes : Takes e l2_done stored (send_accepted lib config e)
  unfolding send_accepted send_event measure_serialization
  send_accepted-Takes s h x = ground arith

  -- After the first calls of `run_l2_trigger` the event is past L2.
  abbrev Past : Event → State → State → Type 0
  Past x s s' =
      (phase x s'.calls ≡ (if e == x then some l2_done else phase x s.calls))
      ⊎ (phase x s'.calls ≡ (if e == x then some stored else phase x s.calls))

  run_l2_trigger-Past :
      (p : Phase) (s : State)
      → AfterL1 p
      → phase e s.calls ≡ some p
      → (x : Event) → Past x s (run_l2_trigger lib config e s).1
  unfolding run_l2_trigger measure_l2_processing send_accepted send_event measure_serialization
  run_l2_trigger-Past p s a h x = ground arith

  run_non_z_suppressed-Past :
      (p : Phase) (s : State)
      → AfterL1 p
      → phase e s.calls ≡ some p
      → (x : Event) → Past x s (run_non_z_suppressed lib config e s).1
  unfolding run_non_z_suppressed
  run_non_z_suppressed-Past p s a h x = ground arith

  write_out-Past :
      (p : Phase) (s : State)
      → AfterL1 p
      → phase e s.calls ≡ some p
      → (x : Event) → Past x s (write_out lib config e s).1
  unfolding write_out send_event
  write_out-Past p s a h x = ground arith

-- `processL2` keeps to the protocol: from the phase after L1, and from the phase after the request
-- to the LKr, the event ends freed on every branch, and no other event changes its phase.
pub process_l2-Takes :
    (lib : Library) (config : Config) (e : Event) (p : Phase)
    → AfterL1 p
    → Takes e p freed (process_l2 lib config e)
unfolding process_l2
process_l2-Takes lib config e p a s h x = ground (
  arith,
  run_l2_trigger-Past lib config e p s a h x,
  run_l2_trigger-Past lib config e p s a h e,
  run_non_z_suppressed-Past lib config e p s a h x,
  run_non_z_suppressed-Past lib config e p s a h e,
  write_out-Past lib config e p s a h x,
  write_out-Past lib config e p s a h e,
)
