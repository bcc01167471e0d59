-- ===== src/System/Serial.antt =====
-- The calls of several threads for one event, when they make calls at the same time. The source takes
-- no lock while a frame, an answer or the end of a burst is handled.
use na62_farm.Base.{
  ℕ, ◌≡◌, ◌≢◌, refl, sym, ap, ◌∙◌, subst, true, false, none, some, List, [], ◌∷◌, Bool, keep,
  if◌then◌else◌,
}
use na62_farm.EventBuilding.Library.{Event, Call, Library, Config}
use na62_farm.EventBuilding.Protocol.{event_of, concerns, follow, phase, cut_off, dropped}
use na62_farm.EventBuilding.Protocol.Assumed.{ReportsOnce, InProtocol}
use na62_farm.FrameTasks.Network.{Network}
use na62_farm.System.{Program, Reach}
use na62_farm.System.Safety.{IsHonest, Reach-InProtocol}

-- The calls that work on an event.
abbrev pub calls_of : Event → List Call → List Call
calls_of x = keep (λ c. concerns x (event_of c))

phase-keep :
    (b : Bool) (x : Event) (c : Call) (h k : List Call)
    → concerns x (event_of c) ≡ b
    → phase x h ≡ phase x k
    → (if b then follow c (phase x h) else phase x h) ≡ phase x (if b then c ∷ k else k)
phase-keep true x c h k e same = rw e (ap (follow c) same)
phase-keep false x c h k e same = same

-- The phase of an event is that after its own calls.
phase-calls_of : (x : Event) (h : List Call) → phase x h ≡ phase x (calls_of x h)
phase-calls_of x [] = refl
phase-calls_of x (c ∷ h) =
    phase-keep (concerns x (event_of c)) x c h (calls_of x h) refl (phase-calls_of x h)

-- Two sequences of calls have the same calls for each event, in the same order, however the calls for
-- different events are mixed.
abbrev pub SameCalls : List Call → List Call → Type 0
SameCalls h k = (x : Event) → calls_of x h ≡ calls_of x k

SameCalls-phase : (x : Event) (h k : List Call) → SameCalls h k → phase x h ≡ phase x k
SameCalls-phase x h k same = phase-calls_of x h ∙ ap (phase x) (same x) ∙ sym (phase-calls_of x k)

module _ (mtu : ℕ) (net : Network) (lib : Library) (config : Config) where
  -- Whatever frames the packet handlers receive, whichever of the task processors handle them, and
  -- however frames, answers and ends of bursts follow each other; and however the calls that they make
  -- for different events are mixed, call by call, as long as the calls for each single event are those
  -- of such a run, in its order: no event is freed twice, used after it was freed or triggered before
  -- it is built, and none is written before L2 but an unfinished event that the end of a burst drops
  -- next, if that was so before. The source takes no lock that would keep two threads from working on
  -- one event at the same time; that they do not is assumed here. The library is assumed to report an
  -- event as complete only while it is being built, or only while LKr data is expected, a trigger
  -- process to answer only for an event that waits for it, and the pool to hold an event in one slot at
  -- most and to call it unfinished only while it is being built or waits for LKr data.
  pub SameCalls-InProtocol :
      {p q : Program} (run : Reach mtu net lib config p q) (h : List Call)
      → SameCalls h q.farm.builders.calls
      → ReportsOnce lib
      → IsHonest mtu net lib config run
      → InProtocol p.farm.builders
      → InProtocol (record q.farm.builders { calls = h })
  SameCalls-InProtocol {q} run h same once honest before x =
      subst (λ o. (o ≢ none) × (o ≢ some cut_off) × (o ≢ some dropped))
        (sym (SameCalls-phase x h q.farm.builders.calls same))
        (Reach-InProtocol mtu net lib config run once honest before x)
