-- ===== src/System/Storage/Delivered.antt =====
-- eventBuilding/StorageHandler.cpp beside the other threads: what becomes of the events.
use na62_farm.Base.{ℕ, ◌≡◌, refl, sym, ap, ◌∙◌, subst, Option, none, some, List, [], ◌∷◌, ◌++◌}
use mathlib.Core.List.{append-nil, append_assoc}
use na62_farm.EventBuilding.Library.{EventHdr, Library, Config}
use na62_farm.EventBuilding.State.{State}
use na62_farm.EventBuilding.Accounting.{Accounts}
use na62_farm.FrameTasks.Network.{Network}
use na62_farm.Mergers.{Attempt, Sending, Outcomes, destroy_all}
use na62_farm.Mergers.Delivery.{SentOnce, send_event_data-SentOnce}
use na62_farm.Mergers.Drained.{with_delivered, events_of}
use na62_farm.Mergers.Drained
use na62_farm.System.{start, later}
use na62_farm.System.Safety.{Reach-Accounts}
use na62_farm.System.Storage.{
  Plant, pop_event, next_data, try_once, after_attempt, PlantRun, worked, event_popped,
  message_failed, attempted, shut_down, begun, onward,
}

-- The event that the storage thread holds, if any.
abbrev pub held : Option EventHdr → List EventHdr
held none = []
held (some event) = event ∷ []

abbrev pub outcome_of : EventHdr → Sending → Outcomes
outcome_of event Sending.unfinished = []
outcome_of event sending = (event, sending) ∷ []

-- The events popped so far, and the one that is held.
abbrev pub taken : Outcomes → Option EventHdr → List EventHdr
taken outcomes data_hdr = Drained.popped outcomes ++ held data_hdr

-- The events that were popped, the one held and those in the queue are what serialization gave, in
-- order, and what was sent is, in order, each event that was delivered, once, and nothing else.
pub record IsDelivered (lib : Library) (outcomes : Outcomes) (p : Plant) : Type 0 where
  pub accounts : Accounts lib (taken outcomes p.data_hdr) p.program.farm.builders
  pub in_order : events_of p.mergers.sent ≡ with_delivered outcomes []

popped-append : (a b : Outcomes) → Drained.popped (a ++ b) ≡ Drained.popped a ++ Drained.popped b
popped-append [] b = refl
popped-append ((event, sending) ∷ a) b = ap (λ l. event ∷ l) (popped-append a b)

with_delivered-append :
    (a b : Outcomes) (sent : List EventHdr)
    → with_delivered (a ++ b) sent ≡ with_delivered b (with_delivered a sent)
with_delivered-append [] b sent = refl
with_delivered-append ((event, Sending.done) ∷ a) b sent = with_delivered-append a b (event ∷ sent)
with_delivered-append ((event, Sending.abandoned) ∷ a) b sent = with_delivered-append a b sent
with_delivered-append ((event, Sending.unfinished) ∷ a) b sent = with_delivered-append a b sent
with_delivered-append ((event, Sending.fault) ∷ a) b sent = with_delivered-append a b sent

-- An event moves from the queue to the storage thread.
taken-Accounts :
    (lib : Library) (before after queue : List EventHdr) (event : EventHdr) (s : State)
    → s.data_queue ≡ event ∷ queue
    → after ≡ before ++ event ∷ []
    → Accounts lib before s
    → Accounts lib after (record s { data_queue = queue })
taken-Accounts lib before after queue event s e d h = record {
  queued =
      ap (λ l. l ++ queue) d
      ∙ append_assoc before (event ∷ []) queue
      ∙ ap (λ l. before ++ l) (sym e)
      ∙ h.queued;
  requested = h.requested;
}

-- An attempt leaves the event with the storage thread or gives it an outcome.
taken-attempt :
    (outcomes : Outcomes) (event : EventHdr) (sending : Sending)
    → taken (outcomes ++ outcome_of event sending) (next_data event sending)
      ≡ taken outcomes (some event)
unfolding next_data
taken-attempt outcomes event Sending.done =
    append-nil _ ∙ popped-append outcomes ((event, Sending.done) ∷ [])
taken-attempt outcomes event Sending.abandoned =
    append-nil _ ∙ popped-append outcomes ((event, Sending.abandoned) ∷ [])
taken-attempt outcomes event Sending.unfinished =
    ap (λ l. Drained.popped l ++ event ∷ []) (append-nil outcomes)
taken-attempt outcomes event Sending.fault =
    append-nil _ ∙ popped-append outcomes ((event, Sending.fault) ∷ [])

sent-attempt :
    (event : EventHdr) (outcomes : Outcomes) (before after : List (ℕ × EventHdr))
    (sending : Sending)
    → SentOnce event before sending after
    → events_of before ≡ with_delivered outcomes []
    → events_of after ≡ with_delivered (outcomes ++ outcome_of event sending) []
sent-attempt event outcomes before after Sending.done (socket, e) h =
    ap events_of e
    ∙ ap (λ l. event ∷ l) h
    ∙ sym (with_delivered-append outcomes ((event, Sending.done) ∷ []) [])
sent-attempt event outcomes before after Sending.abandoned e h =
    ap events_of e ∙ h ∙ sym (with_delivered-append outcomes ((event, Sending.abandoned) ∷ []) [])
sent-attempt event outcomes before after Sending.unfinished e h =
    ap events_of e ∙ h ∙ sym (with_delivered-append outcomes [] [])
sent-attempt event outcomes before after Sending.fault e h =
    ap events_of e ∙ h ∙ sym (with_delivered-append outcomes ((event, Sending.fault) ∷ []) [])

module _ (mtu : ℕ) (net : Network) (lib : Library) (config : Config) where
  -- What became of the events that were popped, oldest first, with those from before the run.
  abbrev pub outcomes_of : {p q : Plant} → Outcomes → PlantRun mtu net lib config p q → Outcomes
  outcomes_of before begun = before
  outcomes_of before (onward run (message_failed event queue e d)) =
      outcomes_of before run ++ (event, Sending.abandoned) ∷ []
  outcomes_of before (onward {q = m} run (attempted event attempt e d)) =
      outcomes_of before run ++ outcome_of event (try_once event attempt m.mergers).0
  outcomes_of before (onward run _) = outcomes_of before run

  attempted-IsDelivered :
      (outcomes : Outcomes) (event : EventHdr) (attempt : Attempt) (p : Plant)
      → p.data_hdr ≡ some event
      → IsDelivered lib outcomes p
      → IsDelivered lib
          (outcomes ++ outcome_of event (try_once event attempt p.mergers).0)
          (after_attempt event attempt p)
  unfolding after_attempt
  attempted-IsDelivered outcomes event attempt p e h = record {
    accounts =
        subst (λ l. Accounts lib l p.program.farm.builders)
          (ap (taken outcomes) e
            ∙ sym (taken-attempt outcomes event (try_once event attempt p.mergers).0))
          h.accounts;
    in_order =
        sent-attempt event outcomes p.mergers.sent (try_once event attempt p.mergers).1.sent
          (try_once event attempt p.mergers).0
          (send_event_data-SentOnce event (attempt ∷ []) p.mergers) h.in_order;
  }

  popped-IsDelivered :
      (outcomes after : Outcomes) (event : EventHdr) (data_hdr : Option EventHdr)
      (queue : List EventHdr) (p : Plant)
      → p.data_hdr ≡ none
      → p.program.farm.builders.data_queue ≡ event ∷ queue
      → taken after data_hdr ≡ Drained.popped outcomes ++ event ∷ []
      → with_delivered after [] ≡ with_delivered outcomes []
      → IsDelivered lib outcomes p
      → IsDelivered lib after (pop_event data_hdr queue p)
  unfolding pop_event
  popped-IsDelivered outcomes after event data_hdr queue p e d t s h = record {
    accounts =
        taken-Accounts lib (Drained.popped outcomes) (taken after data_hdr) queue event
          p.program.farm.builders d t
          (subst (λ l. Accounts lib l p.program.farm.builders)
            (ap (taken outcomes) e ∙ append-nil (Drained.popped outcomes)) h.accounts);
    in_order = h.in_order ∙ sym s;
  }

  pub PlantRun-IsDelivered :
      {p q : Plant} (before : Outcomes) (run : PlantRun mtu net lib config p q)
      → IsDelivered lib before p
      → IsDelivered lib (outcomes_of before run) q
  unfolding destroy_all
  PlantRun-IsDelivered before begun h = h
  PlantRun-IsDelivered before (onward {q = m} run (worked q step)) h =
      let k = PlantRun-IsDelivered before run h in
      record {
        accounts = Reach-Accounts mtu net lib config _ (later start step) k.accounts;
        in_order = k.in_order;
      }
  PlantRun-IsDelivered before (onward {q = m} run (event_popped event queue e d)) h =
      popped-IsDelivered (outcomes_of before run) _ event (some event) queue m e d refl refl
        (PlantRun-IsDelivered before run h)
  PlantRun-IsDelivered before (onward {q = m} run (message_failed event queue e d)) h =
      let outcomes = outcomes_of before run in
      popped-IsDelivered outcomes _ event none queue m e d
        (append-nil _ ∙ popped-append outcomes ((event, Sending.abandoned) ∷ []))
        (with_delivered-append outcomes ((event, Sending.abandoned) ∷ []) [])
        (PlantRun-IsDelivered before run h)
  PlantRun-IsDelivered before (onward {q = m} run (attempted event attempt e d)) h =
      attempted-IsDelivered (outcomes_of before run) event attempt m e
        (PlantRun-IsDelivered before run h)
  PlantRun-IsDelivered before (onward run shut_down) h =
      let k = PlantRun-IsDelivered before run h in
      record { accounts = k.accounts; in_order = k.in_order }
