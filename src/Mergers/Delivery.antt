-- ===== src/Mergers/Delivery.antt =====
-- eventBuilding/StorageHandler.cpp: an event is sent once, to the socket of its burst.
use na62_farm.Base.{
  ℕ, zero, suc, ◌%◌, ◌≤◌, ◌<◌, ◌≡◌, ◌≢◌, ◌∙◌, refl, sym, subst, ap, true, false, Option, none, some,
  List, [], ◌∷◌, ◌++◌, inl, inr, All, length, length-append, get_elem?, arith, Bool-cases, map,
}
use mathlib.Core.List.{append-nil, append_assoc}
use native.Mathlib.Nat.{mod-lt}
use na62_farm.EventBuilding.Library.{EventHdr}
use na62_farm.Mergers.{
  Mergers, SendResult, Attempt, Sending, delivered, interrupted, failed, connect_all, destroy_all,
  set_mergers, socket_for, answer, try_send, send_event_data,
}

get_elem?-within : (xs : List ℕ) (i : ℕ) → i < length xs → (x : ℕ) × (get_elem? xs i ≡ some x)
get_elem?-within [] i h = ground arith
get_elem?-within (x ∷ xs) zero h = (x, refl)
get_elem?-within (x ∷ xs) (suc i) h = get_elem?-within xs i (omega arith)

connect_all-keeps :
    (cs : List (Option ℕ)) (m : Mergers)
    → (length m.merger_sockets ≤ length (connect_all cs m).1.merger_sockets)
      × ((connect_all cs m).1.sent ≡ m.sent)
      × ((connect_all cs m).1.destroyed ≡ m.destroyed)
unfolding connect_all
connect_all-keeps [] m = ground arith
connect_all-keeps (none ∷ cs) m = ground arith
connect_all-keeps (some c ∷ cs) m = ground (
  arith,
  connect_all-keeps cs (record m { merger_sockets = m.merger_sockets ++ c ∷ [] }),
  length-append m.merger_sockets (c ∷ []),
)

connect_all-connected :
    (sockets : List ℕ) (m : Mergers)
    → connect_all (map some sockets) m
      ≡ (true, record m { merger_sockets = m.merger_sockets ++ sockets })
unfolding connect_all
connect_all-connected [] m =
    ap (λ l. (true, record m { merger_sockets = l })) (sym (append-nil m.merger_sockets))
connect_all-connected (c ∷ cs) m =
    connect_all-connected cs (record m { merger_sockets = m.merger_sockets ++ c ∷ [] })
    ∙ ap (λ l. (true, record m { merger_sockets = l })) (append_assoc m.merger_sockets (c ∷ []) cs)

set_mergers-sent : (cs : List (Option ℕ)) (m : Mergers) → (set_mergers cs m).1.sent ≡ m.sent
unfolding set_mergers destroy_all
set_mergers-sent cs m = (connect_all-keeps cs (destroy_all m)).1

-- When every host connects, `setMergers` returns, with one socket for each host in the order of the
-- hosts; every old socket was destroyed once, and nothing was sent.
pub set_mergers-connected :
    (sockets : List ℕ) (m : Mergers)
    → set_mergers (map some sockets) m ≡ (
      true,
      record {
        merger_sockets = sockets;
        destroyed = m.destroyed ++ m.merger_sockets;
        sent = m.sent;
      },
    )
unfolding set_mergers destroy_all
set_mergers-connected sockets m = connect_all-connected sockets (destroy_all m)

-- Whatever host fails to connect, `setMergers` has destroyed every old socket, once.
pub set_mergers-destroys :
    (connections : List (Option ℕ)) (m : Mergers)
    → (set_mergers connections m).1.destroyed ≡ m.destroyed ++ m.merger_sockets
unfolding set_mergers destroy_all
set_mergers-destroys connections m = (connect_all-keeps connections (destroy_all m)).2

-- How often an event was sent, for each end of the loop.
abbrev pub SentOnce : EventHdr → List (ℕ × EventHdr) → Sending → List (ℕ × EventHdr) → Type 0
SentOnce event sent Sending.done after = (socket : ℕ) × (after ≡ (socket, event) ∷ sent)
SentOnce event sent Sending.abandoned after = after ≡ sent
SentOnce event sent Sending.unfinished after = after ≡ sent
SentOnce event sent Sending.fault after = after ≡ sent

module _ (event : EventHdr) where
  abbrev Sends : (Mergers → Sending × Mergers) → Type 0
  Sends f = (m : Mergers) → SentOnce event m.sent (f m).0 (f m).1.sent

  answer-Sends :
      (socket : ℕ) (result : SendResult) (connections : List (Option ℕ))
      (again : Mergers → Sending × Mergers)
      → Sends again
      → Sends (answer event socket result connections again)
  unfolding answer
  answer-Sends socket delivered connections again k m = (socket, refl)
  answer-Sends socket interrupted connections again k m = k m
  answer-Sends socket failed connections again k m =
      subst
        (λ l.
          SentOnce event l (again (set_mergers connections m).1).0
            (again (set_mergers connections m).1).1.sent)
        (set_mergers-sent connections m) (k (set_mergers connections m).1)

  try_send-Sends :
      (socket : Option ℕ) (result : SendResult) (connections : List (Option ℕ))
      (again : Mergers → Sending × Mergers)
      → Sends again
      → Sends (try_send event socket result connections again)
  unfolding try_send
  try_send-Sends none result connections again k m = refl
  try_send-Sends (some socket) result connections again k m =
      answer-Sends socket result connections again k m

-- Whatever ZeroMQ answers, and however often the mergers are set again: when the loop of `thread`
-- ends with the event delivered, it was sent exactly once, and otherwise it was not sent at all.
pub send_event_data-SentOnce :
    (event : EventHdr) (attempts : List Attempt) (m : Mergers)
    → SentOnce event m.sent
        (send_event_data event attempts m).0
        (send_event_data event attempts m).1.sent
unfolding send_event_data
send_event_data-SentOnce event [] m = refl
send_event_data-SentOnce event (attempt ∷ l) m = elim (Bool-cases attempt.is_running) [
  | inr stopped ↦ rw (stopped, send_event_data) refl
  | inl runs ↦
      rw (runs, send_event_data)
        (try_send-Sends event (socket_for event.burst_id m.merger_sockets) attempt.result
          attempt.connections (λ m'. send_event_data event l m') (send_event_data-SentOnce event l)
          m)
]

-- The first host connects.
abbrev pub Connects : List (Option ℕ) → Type 0
Connects [] = true ≡ false
Connects (none ∷ cs) = true ≡ false
Connects (some c ∷ cs) = Unit

pub Connects-sockets :
    (cs : List (Option ℕ)) (m : Mergers)
    → Connects cs
    → 0 < length (set_mergers cs m).1.merger_sockets
unfolding set_mergers destroy_all connect_all
Connects-sockets [] m h = ground arith
Connects-sockets (none ∷ cs) m h = ground arith
Connects-sockets (some c ∷ cs) m h =
    ground (arith, connect_all-keeps cs (record (destroy_all m) { merger_sockets = c ∷ [] }))

pub socket_for-some :
    (b : ℕ) (sockets : List ℕ) → 0 < length sockets → (c : ℕ) × (socket_for b sockets ≡ some c)
unfolding socket_for
socket_for-some b sockets h =
    let (c, e) = get_elem?-within sockets (b % length sockets) (mod-lt b h) in (c, ground arith)

module _ (event : EventHdr) where
  abbrev Safe : (Mergers → Sending × Mergers) → Type 0
  Safe f = (m : Mergers) → 0 < length m.merger_sockets → (f m).0 ≢ Sending.fault

  answer-Safe :
      (socket : ℕ) (result : SendResult) (connections : List (Option ℕ))
      (again : Mergers → Sending × Mergers)
      → Connects connections
      → Safe again
      → Safe (answer event socket result connections again)
  unfolding answer
  answer-Safe socket delivered connections again k l m h = ground arith
  answer-Safe socket interrupted connections again k l m h = l m h
  answer-Safe socket failed connections again k l m h =
      l (set_mergers connections m).1 (Connects-sockets connections m k)

-- With a merger connected, the loop never sends to a socket that is not there, as long as the first
-- host connects whenever the mergers are set again.
pub send_event_data-no_fault :
    (event : EventHdr) (attempts : List Attempt) (m : Mergers)
    → 0 < length m.merger_sockets
    → All (λ a. Connects a.connections) attempts
    → (send_event_data event attempts m).0 ≢ Sending.fault
unfolding send_event_data try_send
send_event_data-no_fault event [] m h k = ground arith
send_event_data-no_fault event (attempt ∷ l) m h k = elim (Bool-cases attempt.is_running) [
  | inr stopped ↦ rw (stopped, send_event_data) (ground arith)
  | inl runs ↦
      let (c, e) = socket_for-some event.burst_id m.merger_sockets h in
      rw (runs, send_event_data)
        (rw e (
          answer-Safe event c attempt.result attempt.connections (λ m'. send_event_data event l m')
            k.0 (λ m' h'. send_event_data-no_fault event l m' h' k.1) m h))
]
