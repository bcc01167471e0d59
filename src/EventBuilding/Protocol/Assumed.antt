-- ===== src/EventBuilding/Protocol/Assumed.antt =====
-- What the protocol of an event relies on, and what it rules out.
use na62_farm.Base.{ℕ, true, none, some, List, ◌≡◌, ◌≢◌, ◌⊎◌}
use na62_farm.EventBuilding.Library.{Event, Fragment, TriggerMessage, Call, Library, Config}
use na62_farm.EventBuilding.State.{State}
use na62_farm.EventBuilding.QueueReceiver.{Receiver, count_message}
use na62_farm.EventBuilding.Steps.{Run, here, then_step, l0_arrives, l1_arrives, answered}
use na62_farm.EventBuilding.Protocol.{building, requested, cut_off, dropped, freed, phase}

-- What the program relies on of `Event::addL0Fragment` and `Event::addL1Fragment`: they report a
-- complete event only while it is being built, or only while LKr data is expected.
pub record ReportsOnce (lib : Library) : Type 0 where
  pub l0_once :
      (h : List Call) (e : Event) (f : Fragment) (burst_id : ℕ)
      → lib.l0_complete h e f burst_id ≡ true
      → (phase e h ≡ some building) ⊎ (phase e h ≡ some freed)
  pub l1_once :
      (h : List Call) (e : Event) (f : Fragment)
      → lib.l1_complete h e f ≡ true
      → phase e h ≡ some requested

-- No event has been misused so far, and none is left half-way in the clean-up of a burst.
abbrev pub InProtocol : State → Type 0
InProtocol s =
    (x : Event)
    → (phase x s.calls ≢ none) × (phase x s.calls ≢ some cut_off) × (phase x s.calls ≢ some dropped)

-- A trigger process answers only for an event that is built and waits for it.
abbrev pub IsPending : Library → Config → TriggerMessage → Receiver → Type 0
IsPending lib config message r =
    (e : Event)
    → lib.get_event (count_message lib config message r).builders.calls message.event_id ≡ some e
    → phase e r.builders.calls ≡ some building

-- So it is at every answer of a run.
abbrev pub AllPending :
    {lib : Library} {config : Config} {r r' : Receiver} → Run lib config r r' → Type 0
AllPending here = Unit
AllPending (then_step run (l0_arrives f b)) = AllPending run
AllPending (then_step run (l1_arrives f)) = AllPending run
AllPending {lib} {config} (then_step {r' = m} run (answered message r' e)) =
    IsPending lib config message m × AllPending run
