-- ===== src/EventBuilding/Kept.antt =====
-- eventBuilding/ and SharedMemory/QueueReceiver.cpp: what the handling of one event keeps, every
-- fragment, answer and run keeps.
use na62_farm.Base.{
  ℕ, Option, none, some, ◌≡◌, subst, some_inj, inl, inr, ◌==◌, arith, Option-cases, Bool-cases,
}
use na62_farm.EventBuilding.Library.{Event, Fragment, TriggerMessage, Call, Library, Config}
use na62_farm.EventBuilding.State.{State, call}
use na62_farm.EventBuilding.L2Builder
use na62_farm.EventBuilding.L1Builder
use na62_farm.EventBuilding.QueueReceiver.{Receiver, respond, respond_to, count_message, receive}
use na62_farm.EventBuilding.Steps.{Run, Run-keeps}

module _ (lib : Library) (config : Config) (P : State → Type 0)
    (deleted : (f : Fragment) (s : State) → P s → P (call (Call.delete_fragment f) s).1)
    (l0_added : (e : Event) (f : Fragment) (burst_id : ℕ) (s : State)
      → P s
      → P (L1Builder.add_l0_fragment lib config e f burst_id s).1)
    (l1_added : (e : Event) (f : Fragment) (s : State)
      → P s
      → P (L2Builder.add_l1_fragment lib config e f s).1)
    (counted : (message : TriggerMessage) (r : Receiver)
      → P r.builders
      → P (count_message lib config message r).builders)
    (responded : (message : TriggerMessage) (e : Event) (s : State)
      → P s
      → P (respond lib config message e s).1) where
  pub l0_build-keeps :
      (f : Fragment) (burst_id : ℕ) (s : State)
      → P s
      → P (L1Builder.build_event lib config f burst_id s).1
  unfolding L1Builder.build_event
  l0_build-keeps f b s h = elim (Option-cases (lib.get_event s.calls f.event_number)) [
    | inl e ↦ rw (e, L1Builder.build_event) (deleted f s h)
    | inr (event, e) ↦ rw (e, L1Builder.build_event) (l0_added event f b s h)
  ]

  pub l1_build-keeps : (f : Fragment) (s : State) → P s → P (L2Builder.build_event lib config f s).1
  unfolding L2Builder.build_event
  l1_build-keeps f s h = elim (Option-cases (lib.get_event s.calls f.event_number)) [
    | inl e ↦ rw (e, L2Builder.build_event) (deleted f s h)
    | inr (event, e) ↦ rw (e, L2Builder.build_event) (l1_added event f s h)
  ]

  respond_to-keeps :
      (message : TriggerMessage) (event : Option Event) (q r' : Receiver)
      → P q.builders
      → respond_to lib config message event q ≡ some r'
      → P r'.builders
  unfolding respond_to
  respond_to-keeps message none q r' k e = absurd (ground arith)
  respond_to-keeps message (some event) q r' k e =
      subst (λ t. P t.builders) (some_inj e) (responded message event q.builders k)

  pub receive-keeps :
      (message : TriggerMessage) (r r' : Receiver)
      → receive lib config message r ≡ some r'
      → P r.builders
      → P r'.builders
  unfolding receive
  receive-keeps message r r' e h =
      let q = count_message lib config message r in
      elim (Bool-cases (message.burst_id == lib.current_burst_id r.builders.calls)) [
        | inl now ↦ elim (Bool-cases (message.level == 1)) [
          | inl l1 ↦
              respond_to-keeps message (lib.get_event q.builders.calls message.event_id) q r'
                (counted message r h) (rw (now, l1) at e)
          | inr other ↦
              subst (λ o. P o.builders) (some_inj (rw (now, other) at e)) (counted message r h)
        ]
        | inr old ↦ subst (λ o. P o.builders) (some_inj (rw old at e)) h
      ]

  pub every_run-keeps : {r r' : Receiver} → Run lib config r r' → P r.builders → P r'.builders
  every_run-keeps = Run-keeps lib config P l0_build-keeps l1_build-keeps receive-keeps
