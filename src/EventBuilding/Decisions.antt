-- ===== src/EventBuilding/Decisions.antt =====
-- eventBuilding/L1Builder.cpp and eventBuilding/L2Builder.cpp: what becomes of a built event, as a
-- decision by what the triggers answer, without the statistics and the times.
pub mod L2
pub mod L1
use na62_farm.Base.{
  ℕ, Bool, ◌+◌, not, ◌&&◌, Option, none, some, List, [], ◌∷◌, ◌++◌, ◌≡◌, ◌==◌, take, if◌then◌else◌,
}
use na62_farm.Base.Words.{u8, u64}
use na62_farm.EventBuilding.Library.{Event, Call, EventHdr, Library, Config}
use na62_farm.EventBuilding.State.{State, M}
use na62_farm.EventBuilding.Accounting.{freed_events, requested_events}
use na62_farm.EventBuilding.L1Builder.{l0_l1_trigger, bypass_word}

-- An event is freed unwritten, written and freed, kept while its LKr data is requested, with or without
-- zero suppression, or stored for a trigger process and counted as out, for its burst.
pub data Decision : Type 0 where
  drops : Decision
  writes : EventHdr → Decision
  requests : Bool → Decision
  hands_over : ℕ → Decision

abbrev pub last_call : List Call → Option Call
last_call [] = none
last_call (c ∷ h) = some c

-- What a decision changes: the queue of the storage handler, the counter of requests, the events that
-- were freed and those whose data was requested. The values before are `queue`, `n`, `freed` and
-- `requested`.
abbrev pub IsDone :
    Decision → Event → List EventHdr → ℕ → List Event → List (Event × Bool) → State → Type 0
IsDone drops e queue n freed requested t =
    (t.data_queue ≡ queue)
    × (t.l1_requests ≡ n)
    × (freed_events t.calls ≡ e ∷ freed)
    × (requested_events t.calls ≡ requested)
    × (last_call t.calls ≡ some (Call.free_event e))
IsDone (writes header) e queue n freed requested t =
    (t.data_queue ≡ queue ++ header ∷ [])
    × (t.l1_requests ≡ n)
    × (freed_events t.calls ≡ e ∷ freed)
    × (requested_events t.calls ≡ requested)
    × (last_call t.calls ≡ some (Call.free_event e))
IsDone (requests zero_suppressed) e queue n freed requested t =
    (t.data_queue ≡ queue)
    × (t.l1_requests ≡ u64 (n + 1))
    × (freed_events t.calls ≡ freed)
    × (requested_events t.calls ≡ (e, zero_suppressed) ∷ requested)
IsDone (hands_over burst) e queue n freed requested t =
    (t.data_queue ≡ queue)
    × (t.l1_requests ≡ n)
    × (freed_events t.calls ≡ freed)
    × (requested_events t.calls ≡ requested)
    × (take 2 t.calls ≡ Call.set_event_out burst 1 ∷ Call.store_l1_event e ∷ [])

module _ (lib : Library) (config : Config) (e : Event) where
  -- With L2 switched off every event is written; else those that L2 accepts and that wait for nothing.
  abbrev pub after_l2 : List Call → List Call
  after_l2 h =
      let word = u8 (lib.l2_trigger h e) in
      Call.set_l2_processed e word ∷ Call.update_l2_statistics e word ∷ Call.l2_compute e ∷ h

  abbrev pub l2_verdict : List Call → Decision
  l2_verdict h =
      if not (lib.is_waiting_for_non_z_suppressed h e) && lib.is_l2_accepted h e
      then writes (lib.serialized h e)
      else drops

  abbrev pub l2_decision : List Call → Decision
  l2_decision h =
      if not config.is_l2_active
      then writes (lib.serialized (Call.set_l2_processed e 0 ∷ h) e)
      else if lib.is_waiting_for_non_z_suppressed h e
      then drops
      else l2_verdict (after_l2 h)

  -- An event with a trigger word of L1 goes to the LKr, or to L2 if there are no sources of LKr data.
  abbrev pub accepted_decision : List Call → Decision
  accepted_decision h =
      if config.expected_l1_packets == 0
      then l2_decision h
      else requests (lib.is_request_zero_suppressed h e && config.request_z_suppressed_lkr_data)

  abbrev pub local_decision : List Call → Decision
  local_decision h =
      let word = u8 (lib.l1_trigger h e) in
      let l0_word = u8 (lib.l0_trigger_type_word h e) in
      if word == 0
      then drops
      else accepted_decision (
          Call.set_l1_processed e (l0_l1_trigger l0_word word)
          ∷ Call.update_l1_statistics e word
          ∷ Call.l1_compute e
          ∷ h)

  -- With the shared memory it goes to a trigger process, if there is room for it.
  abbrev pub shared_decision : List Call → Decision
  shared_decision h =
      let l0_word = u8 (lib.l0_trigger_type_word (Call.store_l1_event e ∷ h) e) in
      if lib.store_succeeds h e
      then hands_over (lib.burst_of (Call.store_l1_event e ∷ h) e)
      else accepted_decision (
          Call.set_l1_processed e (l0_l1_trigger l0_word bypass_word)
          ∷ Call.update_l1_statistics e bypass_word
          ∷ Call.store_l1_event e
          ∷ h)

  abbrev pub l1_decision : List Call → Decision
  l1_decision h = if config.use_shared_memory then shared_decision h else local_decision h

  -- What an action does to the event is what the decision says.
  abbrev pub Yields : Decision → State → M Unit → Type 0
  Yields decision s m =
      IsDone decision e s.data_queue s.l1_requests (freed_events s.calls) (requested_events s.calls)
        (m s).1
