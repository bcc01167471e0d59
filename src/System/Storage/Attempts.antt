-- ===== src/System/Storage/Attempts.antt =====
-- eventBuilding/StorageHandler.cpp: the inner loop of `thread`, attempt by attempt.
use na62_farm.Base.{ℕ, ◌≡◌, refl, Option, none, some, List, [], ◌∷◌, inl, inr, Bool-cases}
use na62_farm.EventBuilding.Library.{EventHdr}
use na62_farm.Mergers.{
  Mergers, Attempt, Sending, SendResult, delivered, interrupted, failed, socket_for, answer,
  try_send, send_event_data,
}
use na62_farm.System.Storage.{try_once}

-- what is left to do after the first attempt
abbrev pub then_attempts : EventHdr → List Attempt → Sending × Mergers → Sending × Mergers
then_attempts event l (Sending.unfinished, m) = send_event_data event l m
then_attempts event l (sending, m) = (sending, m)

then-answer :
    (event : EventHdr) (l : List Attempt) (socket : ℕ) (result : SendResult)
    (connections : List (Option ℕ)) (m : Mergers)
    → answer event socket result connections (λ m'. send_event_data event l m') m
      ≡ then_attempts event l
          (answer event socket result connections (λ m'. send_event_data event [] m') m)
unfolding answer send_event_data
then-answer event l socket delivered connections m = refl
then-answer event l socket interrupted connections m = refl
then-answer event l socket failed connections m = refl

then-try_send :
    (event : EventHdr) (l : List Attempt) (socket : Option ℕ) (result : SendResult)
    (connections : List (Option ℕ)) (m : Mergers)
    → try_send event socket result connections (λ m'. send_event_data event l m') m
      ≡ then_attempts event l
          (try_send event socket result connections (λ m'. send_event_data event [] m') m)
unfolding try_send
then-try_send event l none result connections m = refl
then-try_send event l (some socket) result connections m =
    then-answer event l socket result connections m

-- The loop over the attempts is its first round and then the others.
pub send_event_data-first :
    (event : EventHdr) (attempt : Attempt) (l : List Attempt) (m : Mergers)
    → send_event_data event (attempt ∷ l) m ≡ then_attempts event l (try_once event attempt m)
unfolding send_event_data
send_event_data-first event attempt l m = elim (Bool-cases attempt.is_running) [
  | inl e ↦
      rw (e, send_event_data)
        (then-try_send event l (socket_for event.burst_id m.merger_sockets) attempt.result
          attempt.connections m)
  | inr e ↦ rw (e, send_event_data) refl
]

pub then-fault :
    (event : EventHdr) (l : List Attempt) (r : Sending × Mergers)
    → r.0 ≡ Sending.fault
    → (then_attempts event l r).0 ≡ Sending.fault
then-fault event l (Sending.fault, m) e = refl
then-fault event l (Sending.done, m) e = e
then-fault event l (Sending.abandoned, m) e = e
then-fault event l (Sending.unfinished, m) e = absurd (cc)
