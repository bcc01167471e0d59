-- ===== src/Mergers/Drained.antt =====
-- eventBuilding/StorageHandler.cpp: the queue of events is worked off, in order.
use na62_farm.Base.{
  ℕ, ◌≤◌, ◌<◌, ◌≡◌, refl, ap, ◌∙◌, true, false, Option, List, [], ◌∷◌, ◌++◌, map, All, ◌⊎◌, inl,
  inr, length, arith, Bool-cases,
}
use na62_farm.EventBuilding.Library.{EventHdr}
use na62_farm.Mergers.{
  Mergers, SendResult, Attempt, Sending, delivered, interrupted, failed, answer, try_send,
  send_event_data, StorageTurn, Outcomes, send_popped, after_event, store_events,
}
use na62_farm.Mergers.Delivery.{
  SentOnce, send_event_data-SentOnce, Connects, Connects-sockets, socket_for-some,
}

-- The events sent, newest first, with those delivered.
abbrev pub with_delivered : Outcomes → List EventHdr → List EventHdr
with_delivered [] sent = sent
with_delivered ((event, Sending.done) ∷ l) sent = with_delivered l (event ∷ sent)
with_delivered ((event, _) ∷ l) sent = with_delivered l sent

abbrev pub events_of : List (ℕ × EventHdr) → List EventHdr
events_of [] = []
events_of ((socket, event) ∷ l) = event ∷ events_of l

abbrev pub popped : Outcomes → List EventHdr
popped [] = []
popped ((event, sending) ∷ l) = event ∷ popped l

-- A result of the loop from a queue and what was sent before it.
abbrev pub IsInOrder : List EventHdr → List EventHdr → Outcomes × List EventHdr × Mergers → Type 0
IsInOrder queue sent (outcomes, queue', m') =
    (popped outcomes ++ queue' ≡ queue) × (events_of m'.sent ≡ with_delivered outcomes sent)

module _ (event : EventHdr) (queue : List EventHdr) (before : List (ℕ × EventHdr)) where
  after_event-IsInOrder :
      (sending : Sending) (m : Mergers) (rest : Mergers → Outcomes × List EventHdr × Mergers)
      → SentOnce event before sending m.sent
      → ((m' : Mergers) → IsInOrder queue (events_of m'.sent) (rest m'))
      → IsInOrder (event ∷ queue) (events_of before) (after_event event queue (sending, m) rest)
  after_event-IsInOrder Sending.done m rest once h =
      let (socket, e) = once in
      (ap (λ l. event ∷ l) (h m).0, (h m).1 ∙ ap (λ l. with_delivered (rest m).0 (events_of l)) e)
  after_event-IsInOrder Sending.abandoned m rest once h = (
    ap (λ l. event ∷ l) (h m).0,
    (h m).1 ∙ ap (λ l. with_delivered (rest m).0 (events_of l)) once,
  )
  after_event-IsInOrder Sending.unfinished m rest once h = (refl, ap events_of once)
  after_event-IsInOrder Sending.fault m rest once h = (refl, ap events_of once)

send_popped-SentOnce :
    (turn : StorageTurn) (event : EventHdr) (m : Mergers)
    → SentOnce event m.sent (send_popped turn event m).0 (send_popped turn event m).1.sent
unfolding send_popped
send_popped-SentOnce turn event m = elim (Bool-cases turn.message_fails) [
  | inl e ↦ rw (e, send_popped) refl
  | inr e ↦ rw (e, send_popped) (send_event_data-SentOnce event turn.attempts m)
]

-- However many rounds the thread runs and whatever ZeroMQ answers in them: the events are popped in
-- the order of the queue and those left stay in order, and what was sent afterwards is, in that
-- order, each event that was delivered, once, and nothing else.
pub store_events-IsInOrder :
    (turns : List StorageTurn) (queue : List EventHdr) (m : Mergers)
    → IsInOrder queue (events_of m.sent) (store_events turns queue m)
unfolding store_events send_popped
store_events-IsInOrder [] queue m = (refl, refl)
store_events-IsInOrder (turn ∷ turns) [] m = elim (Bool-cases turn.is_running) [
  | inl e ↦ rw (e, store_events) (store_events-IsInOrder turns [] m)
  | inr e ↦ rw (e, store_events) (refl, refl)
]
store_events-IsInOrder (turn ∷ turns) (event ∷ queue) m = elim (Bool-cases turn.is_running) [
  | inl e ↦
      rw (e, store_events)
        (after_event-IsInOrder event queue m.sent (send_popped turn event m).0
          (send_popped turn event m).1 (λ m'. store_events turns queue m')
          (send_popped-SentOnce turn event m) (store_events-IsInOrder turns queue))
  | inr e ↦ rw (e, store_events) (refl, refl)
]

-- The attempts end with a delivery, and until then the first host connects whenever the mergers are
-- set again.
abbrev pub Delivers : List Attempt → Type 0
Delivers [] = true ≡ false
Delivers (a ∷ l) =
    (a.is_running ≡ true) × ((a.result ≡ delivered) ⊎ (Connects a.connections × Delivers l))

-- A round that sends its event.
abbrev pub Sends : StorageTurn → Type 0
Sends turn = (turn.is_running ≡ true) × (turn.message_fails ≡ false) × Delivers turn.attempts

abbrev pub IsDone : Sending × Mergers → Type 0
IsDone (sending, m) = (sending ≡ Sending.done) × (0 < length m.merger_sockets)

answer-IsDone :
    (event : EventHdr) (socket : ℕ) (result : SendResult) (connections : List (Option ℕ))
    (again : Mergers → Sending × Mergers) (m : Mergers)
    → 0 < length m.merger_sockets
    → ((result ≡ delivered)
        ⊎ (Connects connections
            × ((m' : Mergers) → 0 < length m'.merger_sockets → IsDone (again m'))))
    → IsDone (answer event socket result connections again m)
unfolding answer
answer-IsDone event socket delivered connections again m some_open h = (refl, some_open)
answer-IsDone event socket interrupted connections again m some_open h = elim h [
  | inl e ↦ absurd (cc)
  | inr (connects, k) ↦ k m some_open
]
answer-IsDone event socket failed connections again m some_open h = elim h [
  | inl e ↦ absurd (cc)
  | inr (connects, k) ↦ k _ (Connects-sockets connections m connects)
]

pub send_event_data-IsDone :
    (event : EventHdr) (attempts : List Attempt) (m : Mergers)
    → 0 < length m.merger_sockets
    → Delivers attempts
    → IsDone (send_event_data event attempts m)
unfolding send_event_data try_send
send_event_data-IsDone event [] m some_open h = ground arith
send_event_data-IsDone event (a ∷ l) m some_open h =
    let (c, e) = socket_for-some event.burst_id m.merger_sockets some_open in
    rw (h.0, send_event_data)
      (rw e (
        answer-IsDone event c a.result a.connections (λ m'. send_event_data event l m') m some_open
          (elim h.1 [
            | inl d ↦ inl d
            | inr (connects, k) ↦
                inr (connects, λ m' some_open'. send_event_data-IsDone event l m' some_open' k)
          ])))

-- Whether every event of the queue was delivered.
abbrev pub AllDelivered : List EventHdr → Outcomes × List EventHdr × Mergers → Type 0
AllDelivered queue (outcomes, queue', m') =
    (queue' ≡ []) × (outcomes ≡ map (λ event. (event, Sending.done)) queue)

after_event-AllDelivered :
    (event : EventHdr) (queue : List EventHdr) (sending : Sending) (m : Mergers)
    (rest : Mergers → Outcomes × List EventHdr × Mergers)
    → sending ≡ Sending.done
    → AllDelivered queue (rest m)
    → AllDelivered (event ∷ queue) (after_event event queue (sending, m) rest)
after_event-AllDelivered event queue Sending.done m rest e h =
    (h.0, ap (λ l. (event, Sending.done) ∷ l) h.1)
after_event-AllDelivered event queue Sending.abandoned m rest e h = ground arith
after_event-AllDelivered event queue Sending.unfinished m rest e h = ground arith
after_event-AllDelivered event queue Sending.fault m rest e h = ground arith

-- Rounds in which ZeroMQ takes the message in the end, and at least as many as there are events:
-- every event of the queue is delivered, in order, and the queue is empty. A merger is connected at
-- the start, and the first host connects whenever the mergers are set again.
pub store_events-AllDelivered :
    (turns : List StorageTurn) (queue : List EventHdr) (m : Mergers)
    → 0 < length m.merger_sockets
    → All Sends turns
    → length queue ≤ length turns
    → AllDelivered queue (store_events turns queue m)
unfolding store_events send_popped
store_events-AllDelivered [] [] m some_open h enough = (refl, refl)
store_events-AllDelivered [] (event ∷ queue) m some_open h enough = ground arith
store_events-AllDelivered (turn ∷ turns) [] m some_open h enough =
    rw (h.0.0, store_events) (store_events-AllDelivered turns [] m some_open h.1 (omega arith))
store_events-AllDelivered (turn ∷ turns) (event ∷ queue) m some_open h enough =
    let (sent, still_open) = send_event_data-IsDone event turn.attempts m some_open h.0.2 in
    rw (h.0.0, h.0.1, store_events)
      (after_event-AllDelivered event queue (send_event_data event turn.attempts m).0
        (send_event_data event turn.attempts m).1 (λ m'. store_events turns queue m') sent
        (store_events-AllDelivered turns queue (send_event_data event turn.attempts m).1 still_open
          h.1 (omega (arith, enough))))
