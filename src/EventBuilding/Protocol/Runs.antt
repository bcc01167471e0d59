-- ===== src/EventBuilding/Protocol/Runs.antt =====
-- Every history of fragments, trigger results and bursts keeps to the protocol.
use na62_farm.Base.{
  ℕ, some, ◌≡◌, refl, ◌∙◌, ◌==◌, ◌⊎◌, inl, inr, if◌then◌else◌, arith, Option-cases, Bool-cases,
}
use na62_farm.EventBuilding.Library.{Event, Fragment, Call, Library, Config}
use na62_farm.EventBuilding.State.{State, M, ◌>>=◌, ◌>>◌, call, ask, when}
use na62_farm.EventBuilding.L2Builder.{process_l2, measure_l1_building}
use na62_farm.EventBuilding.L2Builder
use na62_farm.EventBuilding.L1Builder.{
  send_l1_request, l0_l1_trigger, process_l1, measure_l0_building,
}
use na62_farm.EventBuilding.L1Builder
use na62_farm.EventBuilding.QueueReceiver.{Receiver}
use na62_farm.EventBuilding.Protocol.{building, requested, freed, phase}
use na62_farm.EventBuilding.Steps.{Run, here, then_step, l0_arrives, l1_arrives, answered}
use na62_farm.EventBuilding.Protocol.Assumed.{ReportsOnce, InProtocol, AllPending}
use na62_farm.EventBuilding.Protocol.L2.{process_l2-Takes}
use na62_farm.EventBuilding.Protocol.L1.{process_l1-outcomes}
use na62_farm.EventBuilding.Protocol.Responses.{receive-InProtocol}

module _ (lib : Library) (config : Config) (once : ReportsOnce lib) where
  module _ (e : Event) (f : Fragment) (s : State) (h : InProtocol s) (x : Event) where
    abbrev timed : State
    timed =
        (when config.measure_time (measure_l1_building lib config e)
          (call (Call.add_l1_fragment e f) s).1).1

    -- a fragment of L1, and the clocks, change no phase
    timed-phase : phase x timed.calls ≡ phase x s.calls
    unfolding measure_l1_building
    timed-phase = ground (arith, h x)

  add_l1_fragment-InProtocol :
      (e : Event) (f : Fragment) (s : State)
      → InProtocol s
      → InProtocol (L2Builder.add_l1_fragment lib config e f s).1
  unfolding L2Builder.add_l1_fragment
  add_l1_fragment-InProtocol e f s h x = elim (Bool-cases (lib.l1_complete s.calls e f)) [
    | inl complete ↦
        let waiting = timed-phase e f s h e ∙ once.l1_once s.calls e f complete in
        let ended =
          process_l2-Takes lib config e requested (inr refl) (timed e f s h x) waiting x in
        rw (complete, L2Builder.add_l1_fragment) (ground (arith, ended, timed-phase e f s h x, h x))
    | inr partial ↦ rw (partial, L2Builder.add_l1_fragment) (ground (arith, h x))
  ]

  -- `buildEvent` up to `processL1`, for the fragment that completes an event
  before_l1 : Event → Fragment → ℕ → M Unit
  before_l1 e f burst_id = do
    call (Call.add_l0_fragment e f burst_id)
    ts ← ask (λ h. lib.reference_timestamp h e)
    call (Call.set_timestamp e ts)
    when config.measure_time (measure_l0_building lib config e)
    call (Call.read_trigger_type_word e)

  module _ (e : Event) (f : Fragment) (burst_id : ℕ) (s : State)
      (open_event : (phase e s.calls ≡ some building) ⊎ (phase e s.calls ≡ some freed)) where
    before_l1-phase :
        (x : Event)
        → phase x (before_l1 e f burst_id s).1.calls
          ≡ (if e == x then some building else phase x s.calls)
    unfolding before_l1 measure_l0_building
    before_l1-phase x = ground arith

    completed-InProtocol :
        InProtocol s → InProtocol (process_l1 lib config e (before_l1 e f burst_id s).1).1
    completed-InProtocol h x = ground (
      arith,
      h x,
      before_l1-phase x,
      before_l1-phase e,
      process_l1-outcomes lib config e (before_l1 e f burst_id s).1
          (ground (arith, before_l1-phase e)) x,
    )

  add_l0_fragment-InProtocol :
      (e : Event) (f : Fragment) (burst_id : ℕ) (s : State)
      → InProtocol s
      → InProtocol (L1Builder.add_l0_fragment lib config e f burst_id s).1
  unfolding L1Builder.add_l0_fragment
  add_l0_fragment-InProtocol e f burst_id s h x =
      elim (Bool-cases (lib.l0_complete s.calls e f burst_id)) [
        | inl complete ↦
            rw (complete, L1Builder.add_l0_fragment)
              (unfold before_l1 in
                completed-InProtocol e f burst_id s (once.l0_once s.calls e f burst_id complete) h
                  x)
        | inr partial ↦ rw (partial, L1Builder.add_l0_fragment) (ground (arith, h x))
      ]

  pub l0_build-InProtocol :
      (f : Fragment) (burst_id : ℕ) (s : State)
      → InProtocol s
      → InProtocol (L1Builder.build_event lib config f burst_id s).1
  unfolding L1Builder.build_event
  l0_build-InProtocol f burst_id s h x =
      elim (Option-cases (lib.get_event s.calls f.event_number)) [
        | inl e ↦ rw (e, L1Builder.build_event) (ground (arith, h x))
        | inr (event, e) ↦
            rw (e, L1Builder.build_event) (add_l0_fragment-InProtocol event f burst_id s h x)
      ]

  pub l1_build-InProtocol :
      (f : Fragment) (s : State)
      → InProtocol s
      → InProtocol (L2Builder.build_event lib config f s).1
  unfolding L2Builder.build_event
  l1_build-InProtocol f s h x = elim (Option-cases (lib.get_event s.calls f.event_number)) [
    | inl e ↦ rw (e, L2Builder.build_event) (ground (arith, h x))
    | inr (event, e) ↦ rw (e, L2Builder.build_event) (add_l1_fragment-InProtocol event f s h x)
  ]

-- Whatever the order in which fragments of both levels and the answers of trigger processes come,
-- no event is misused, if that was so before: none is freed twice or used after it was freed, none is
-- passed to a trigger before it is built, its LKr data is requested only after L1, and it is written
-- only after L2, unless it is dropped next. The library is assumed to report an event as complete
-- only while it is being built, or only while LKr data is expected, and a trigger process to answer
-- only for an event that waits for it.
pub Run-InProtocol :
    (lib : Library) (config : Config) {r r' : Receiver} (run : Run lib config r r')
    → ReportsOnce lib
    → AllPending run
    → InProtocol r.builders
    → InProtocol r'.builders
Run-InProtocol lib config here once p h = h
Run-InProtocol lib config (then_step {r' = m} run (l0_arrives f b)) once p h =
    l0_build-InProtocol lib config once f b m.builders (Run-InProtocol lib config run once p h)
Run-InProtocol lib config (then_step {r' = m} run (l1_arrives f)) once p h =
    l1_build-InProtocol lib config once f m.builders (Run-InProtocol lib config run once p h)
Run-InProtocol lib config (then_step {r' = m} run (answered message r' e)) once p h =
    receive-InProtocol lib config message m p.0 (Run-InProtocol lib config run once p.1 h) r' e
