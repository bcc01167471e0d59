-- ===== src/System/Storage/Reasons.antt =====
-- eventBuilding/ and eventBuilding/StorageHandler.cpp: why an event is sent to a merger.
use na62_farm.Base.{
  ℕ, ◌≡◌, refl, sym, ap, subst, List, [], ◌∷◌, ◌++◌, ◌⊎◌, inl, inr, All, All-append,
  All-append_left,
}
use na62_farm.EventBuilding.Library.{Event, EventHdr, Call, Library, Config}
use na62_farm.EventBuilding.Accounting.{headers}
use na62_farm.EventBuilding.Justified.{MayWrite, IsJustified}
use na62_farm.FrameTasks.Network.{Network}
use na62_farm.Mergers.{Sending, Outcomes}
use na62_farm.Mergers.Drained.{with_delivered, events_of}
use na62_farm.Mergers.Drained
use na62_farm.System.{start, later}
use na62_farm.System.Safety.{Reach-IsJustified}
use na62_farm.System.Storage.{
  Plant, pop_event, after_attempt, PlantRun, worked, event_popped, message_failed, attempted,
  shut_down, begun, onward,
}
use na62_farm.System.Storage.Delivered.{IsDelivered, held, outcomes_of, PlantRun-IsDelivered}

-- The end of a burst has dropped the event.
abbrev pub WasDropped : Event → List Call → Type 0
WasDropped e [] = ⊥
WasDropped e (Call.update_missing_events_stats x ∷ h) = (x ≡ e) ⊎ WasDropped e h
WasDropped e (_ ∷ h) = WasDropped e h

-- A header is what one of the serializations gave for its event, when the event could be written, or
-- which the end of a burst dropped.
abbrev pub HasReason : Library → Config → List Call → EventHdr → Type 0
HasReason lib config calls header =
    (e : Event) × (h : List Call) × (after : List Call) × (calls
      ≡ after ++ Call.serialize_event e ∷ h)
    × (header ≡ lib.serialized h e)
    × (MayWrite lib config h e ⊎ WasDropped e calls)

still_dropped : (e : Event) (c : Call) (h : List Call) → WasDropped e h → WasDropped e (c ∷ h)
still_dropped e (Call.update_missing_events_stats x) h k = inr k
still_dropped e _ h k = k

module _ (lib : Library) (config : Config) where
  one_more :
      (c : Call) (h : List Call) (l : List EventHdr)
      → All (HasReason lib config h) l
      → All (HasReason lib config (c ∷ h)) l
  one_more c h [] k = tt
  one_more c h (x ∷ l) ((e, g, after, s, d, may), k) = (
    (
      e,
      g,
      c ∷ after,
      ap (λ m. c ∷ m) s,
      d,
      elim may [ inl m ↦ inl m | inr m ↦ inr (still_dropped e c h m) ],
    ),
    one_more c h l k,
  )

  headers-HasReason :
      (calls : List Call)
      → IsJustified lib config calls
      → All (HasReason lib config calls) (headers lib calls)
  headers-HasReason [] k = tt
  headers-HasReason (Call.serialize_event e ∷ h) k =
      All-append (HasReason lib config (Call.serialize_event e ∷ h)) (headers lib h) _
        (one_more (Call.serialize_event e) h (headers lib h) (headers-HasReason h k.1))
        ((e, h, [], refl, refl, inl k.0), tt)
  headers-HasReason (Call.update_missing_events_stats e ∷ Call.serialize_event x ∷ h) k =
      let g = Call.serialize_event x ∷ h in
      All-append (HasReason lib config (Call.update_missing_events_stats e ∷ g)) (headers lib h) _
        (one_more (Call.update_missing_events_stats e) g (headers lib h)
          (one_more (Call.serialize_event x) h (headers lib h) (headers-HasReason h k.1)))
        (
          (
            x,
            h,
            Call.update_missing_events_stats e ∷ [],
            refl,
            refl,
            elim k.0 [ inl same ↦ inr (inl (sym same)) | inr may ↦ inl may ],
          ),
          tt,
        )
  headers-HasReason (Call.request_l1_data e b ∷ h) k =
      one_more (Call.request_l1_data e b) h (headers lib h) (headers-HasReason h k.2)
  headers-HasReason (c ∷ h) k = one_more c h (headers lib h) (headers-HasReason h k)

  module _ (P : EventHdr → Type 0) where
    delivered-All :
        (outcomes : Outcomes) (sent : List EventHdr)
        → All P (Drained.popped outcomes)
        → All P sent
        → All P (with_delivered outcomes sent)
    delivered-All [] sent h k = k
    delivered-All ((event, Sending.done) ∷ l) sent h k = delivered-All l (event ∷ sent) h.1 (h.0, k)
    delivered-All ((event, Sending.abandoned) ∷ l) sent h k = delivered-All l sent h.1 k
    delivered-All ((event, Sending.unfinished) ∷ l) sent h k = delivered-All l sent h.1 k
    delivered-All ((event, Sending.fault) ∷ l) sent h k = delivered-All l sent h.1 k

    sent-All :
        (outcomes : Outcomes) (p : Plant)
        → IsDelivered lib outcomes p
        → All P (headers lib p.program.farm.builders.calls)
        → All P (events_of p.mergers.sent)
    sent-All outcomes p d h = subst (All P) (sym d.in_order) (
        delivered-All outcomes []
          (All-append_left P (Drained.popped outcomes) (held p.data_hdr) (
            All-append_left P _ p.program.farm.builders.data_queue
              (subst (All P) (sym d.accounts.queued) h)))
          tt)

module _ (mtu : ℕ) (net : Network) (lib : Library) (config : Config) where
  PlantRun-IsJustified :
      {p q : Plant}
      → PlantRun mtu net lib config p q
      → IsJustified lib config p.program.farm.builders.calls
      → IsJustified lib config q.program.farm.builders.calls
  unfolding pop_event after_attempt
  PlantRun-IsJustified begun h = h
  PlantRun-IsJustified (onward run (worked q step)) h =
      Reach-IsJustified mtu net lib config (later start step) (PlantRun-IsJustified run h)
  PlantRun-IsJustified (onward run (event_popped event queue e d)) h = PlantRun-IsJustified run h
  PlantRun-IsJustified (onward run (message_failed event queue e d)) h = PlantRun-IsJustified run h
  PlantRun-IsJustified (onward run (attempted event attempt e d)) h = PlantRun-IsJustified run h
  PlantRun-IsJustified (onward run shut_down) h = PlantRun-IsJustified run h

  -- However the threads interleave, a shut-down included, up to an attempt without sockets: every
  -- header that was sent to a merger is what serialization gave for an event that L2 had accepted by
  -- then and that waited for no more data, or with L2 switched off, or for an event that the end of a
  -- burst dropped; if the events before the run were delivered and written so.
  pub PlantRun-HasReason :
      {p q : Plant} (before : Outcomes)
      → PlantRun mtu net lib config p q
      → IsDelivered lib before p
      → IsJustified lib config p.program.farm.builders.calls
      → All (HasReason lib config q.program.farm.builders.calls) (events_of q.mergers.sent)
  PlantRun-HasReason {q} before run d j =
      sent-All lib config _ (outcomes_of mtu net lib config before run) q
        (PlantRun-IsDelivered mtu net lib config before run d)
        (headers-HasReason lib config q.program.farm.builders.calls (PlantRun-IsJustified run j))
