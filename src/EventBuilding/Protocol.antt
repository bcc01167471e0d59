-- ===== src/EventBuilding/Protocol.antt =====
-- The life of an event of the pool, as an automaton over the calls that the program makes for it.
-- `phase` runs it over the calls made so far; `none` is a breach, such as a second `freeEvent`, a
-- trigger before the event is built, or an event that is stored before L2. At the end of a burst an
-- unfinished event is `dropped`; the last event of a burst is written before, and is `cut_off` then.
pub mod Assumed
pub mod L2
pub mod L1
pub mod Responses
pub mod Runs
use na62_farm.Base.{
  ℕ, Bool, true, false, Option, none, some, List, [], ◌∷◌, ◌≡◌, ◌==◌, if◌then◌else◌,
}
use na62_farm.EventBuilding.Library.{Event, Call}
use na62_farm.EventBuilding.State.{State, M}

pub data Phase : Type 0 where
  building l1_done requested l2_done stored cut_off dropped freed : Phase

-- The event that a call works on.
abbrev pub event_of : Call → Option Event
event_of (Call.add_l0_fragment e f b) = some e
event_of (Call.add_l1_fragment e f) = some e
event_of (Call.set_timestamp e t) = some e
event_of (Call.read_trigger_type_word e) = some e
event_of (Call.set_l1_processed e w) = some e
event_of (Call.set_l1_requested e) = some e
event_of (Call.set_l2_processed e w) = some e
event_of (Call.set_serialization_time e) = some e
event_of (Call.set_request_zero_suppressed e b) = some e
event_of (Call.set_l1_trigger_words e l) = some e
event_of (Call.free_event e) = some e
event_of (Call.l1_compute e) = some e
event_of (Call.write_l1_data e b) = some e
event_of (Call.l2_compute e) = some e
event_of (Call.on_non_z_suppressed_data e) = some e
event_of (Call.request_l1_data e b) = some e
event_of (Call.serialize_event e) = some e
event_of (Call.update_l1_statistics e w) = some e
event_of (Call.update_l2_statistics e w) = some e
event_of (Call.store_l1_event e) = some e
event_of (Call.update_missing_events_stats e) = some e
event_of _ = none

-- The first fragment after `freeEvent` starts a new life; fragments themselves may come at any
-- time, since a late or unexpected one is for the library to refuse.
abbrev on_l0_fragment : Phase → Option Phase
on_l0_fragment freed = some building
on_l0_fragment dropped = none
on_l0_fragment cut_off = none
on_l0_fragment p = some p

abbrev while_building : Phase → Option Phase
while_building building = some building
while_building _ = none

abbrev after_l1 : Phase → Option Phase
after_l1 l1_done = some l1_done
after_l1 requested = some requested
after_l1 _ = none

abbrev on_l1_statistics : Phase → Option Phase
on_l1_statistics building = some building
on_l1_statistics l1_done = some l1_done
on_l1_statistics _ = none

abbrev on_l2_processed : Phase → Option Phase
on_l2_processed l1_done = some l2_done
on_l2_processed requested = some l2_done
on_l2_processed _ = none

abbrev on_free : Phase → Option Phase
on_free l1_done = some freed
on_free l2_done = some freed
on_free stored = some freed
on_free dropped = some freed
on_free _ = none

-- An event that is written before L2 must be dropped next.
abbrev on_serialize : Phase → Option Phase
on_serialize building = some cut_off
on_serialize requested = some cut_off
on_serialize l2_done = some stored
on_serialize _ = none

abbrev on_drop : Phase → Option Phase
on_drop building = some dropped
on_drop requested = some dropped
on_drop cut_off = some dropped
on_drop _ = none

-- The transition from one phase to another, and no other.
abbrev from_to : Bool → Phase → Option Phase
from_to true q = some q
from_to false q = none

abbrev is_l1_done : Phase → Bool
is_l1_done l1_done = true
is_l1_done _ = false

abbrev is_requested : Phase → Bool
is_requested requested = true
is_requested _ = false

abbrev is_stored : Phase → Bool
is_stored stored = true
is_stored _ = false

abbrev is_building : Phase → Bool
is_building building = true
is_building _ = false

abbrev pub next : Call → Phase → Option Phase
next (Call.add_l0_fragment e f b) p = on_l0_fragment p
next (Call.set_timestamp e t) p = while_building p
next (Call.read_trigger_type_word e) p = while_building p
next (Call.l1_compute e) p = while_building p
next (Call.store_l1_event e) p = while_building p
next (Call.write_l1_data e b) p = while_building p
next (Call.set_request_zero_suppressed e b) p = while_building p
next (Call.set_l1_trigger_words e l) p = while_building p
next (Call.update_l1_statistics e w) p = on_l1_statistics p
next (Call.set_l1_processed e w) p = from_to (is_building p) l1_done
next (Call.request_l1_data e b) p = from_to (is_l1_done p) requested
next (Call.set_l1_requested e) p = from_to (is_requested p) requested
next (Call.l2_compute e) p = after_l1 p
next (Call.on_non_z_suppressed_data e) p = after_l1 p
next (Call.update_l2_statistics e w) p = after_l1 p
next (Call.set_l2_processed e w) p = on_l2_processed p
next (Call.serialize_event e) p = on_serialize p
next (Call.update_missing_events_stats e) p = on_drop p
next (Call.set_serialization_time e) p = from_to (is_stored p) stored
next (Call.free_event e) p = on_free p
next _ p = some p

abbrev pub follow : Call → Option Phase → Option Phase
follow c none = none
follow c (some p) = next c p

abbrev pub concerns : Event → Option Event → Bool
concerns x none = false
concerns x (some e) = e == x

-- The phase of an event after some calls, newest first.
abbrev pub phase : Event → List Call → Option Phase
phase x [] = some freed
phase x (c ∷ l) = if concerns x (event_of c) then follow c (phase x l) else phase x l

-- An action takes an event from one phase to another, and leaves every other event where it is.
abbrev pub Takes : {A : Type 0} → Event → Phase → Phase → M A → Type 0
Takes e p q m =
    (s : State)
    → phase e s.calls ≡ some p
    → (x : Event) → phase x (m s).1.calls ≡ (if e == x then some q else phase x s.calls)
