-- ===== src/Mergers.antt =====
-- eventBuilding/StorageHandler.cpp: the sockets to the mergers, and the thread that sends events.
use na62_farm.Base.{
  ℕ, zero, suc, ◌+◌, ◌%◌, Bool, true, false, not, Option, none, some, List, [], ◌∷◌, ◌++◌, ◌==◌,
  length, get_elem?, if◌then◌else◌,
}
use na62_farm.EventBuilding.Library.{EventHdr}
pub mod Delivery
pub mod Drained

-- `mergerSockets_`; the sockets that were destroyed, and what each socket has sent, newest first.
pub record Mergers : Type 0 where
  pub merger_sockets : List ℕ
  pub destroyed : List ℕ
  pub sent : List (ℕ × EventHdr)

-- What ZeroMQ answers to a `send`.
pub data SendResult : Type 0 where
  delivered : SendResult
  interrupted : SendResult
  failed : SendResult

-- One round of the loop of `thread` for an event: `IsRunning`, the answer to `send`, and the sockets
-- that GenerateSocket and `connect` give for the hosts if the mergers are set again (`none` throws).
pub record Attempt : Type 0 where
  pub is_running : Bool
  pub result : SendResult
  pub connections : List (Option ℕ)

-- What became of an event: `fault` is `send` on a socket that is not there.
pub data Sending : Type 0 where
  done : Sending
  abandoned : Sending
  unfinished : Sending
  fault : Sending

-- The loop of `setMergers` over the hosts: `false` when it ends by an exception.
unfoldable pub connect_all : List (Option ℕ) → Mergers → Bool × Mergers
connect_all [] m = (true, m)
connect_all (none ∷ cs) m = (false, m)
connect_all (some socket ∷ cs) m =
    connect_all cs (record m { merger_sockets = m.merger_sockets ++ socket ∷ [] })

-- `onShutDown`, and the start of `setMergers`
unfoldable pub destroy_all : Mergers → Mergers
destroy_all m = record m { merger_sockets = []; destroyed = m.destroyed ++ m.merger_sockets }

unfoldable pub set_mergers : List (Option ℕ) → Mergers → Bool × Mergers
set_mergers connections m = connect_all connections (destroy_all m)

-- `mergerSockets_[data->burstID % mergerSockets_.size()]`
unfoldable pub socket_for : ℕ → List ℕ → Option ℕ
socket_for burst_id sockets =
    if length sockets == 0 then none else get_elem? sockets (burst_id % length sockets)

-- the `catch` after `send`, and what comes before it
unfoldable pub answer :
    EventHdr
    → ℕ
    → SendResult
    → List (Option ℕ)
    → (Mergers → Sending × Mergers)
    → Mergers
    → Sending × Mergers
answer event socket delivered connections again m =
    (Sending.done, record m { sent = (socket, event) ∷ m.sent })
answer event socket interrupted connections again m = again m
answer event socket failed connections again m = again (set_mergers connections m).1

unfoldable pub try_send :
    EventHdr
    → Option ℕ
    → SendResult
    → List (Option ℕ)
    → (Mergers → Sending × Mergers)
    → Mergers
    → Sending × Mergers
try_send event none result connections again m = (Sending.fault, m)
try_send event (some socket) result connections again m =
    answer event socket result connections again m

-- `while (ZMQHandler::IsRunning())` for one event; `unfinished` when the attempts end first.
unfoldable pub send_event_data : EventHdr → List Attempt → Mergers → Sending × Mergers
send_event_data event [] m = (Sending.unfinished, m)
send_event_data event (attempt ∷ l) m =
    if not attempt.is_running
    then (Sending.abandoned, m)
    else try_send event (socket_for event.burst_id m.merger_sockets) attempt.result
        attempt.connections (λ m'. send_event_data event l m') m

-- One round of the loop of `thread`: `running_`, whether the construction of the message throws, and
-- what the attempts to send it meet.
pub record StorageTurn : Type 0 where
  pub is_running : Bool
  pub message_fails : Bool
  pub attempts : List Attempt

-- The events popped so far, oldest first, with what became of each.
abbrev pub Outcomes : Type 0
Outcomes = List (EventHdr × Sending)

-- what is done to an event that was popped; the `catch` leaves it unsent.
unfoldable pub send_popped : StorageTurn → EventHdr → Mergers → Sending × Mergers
send_popped turn event m =
    if turn.message_fails then (Sending.abandoned, m) else send_event_data event turn.attempts m

-- the loop goes on after an event that was delivered or given up
abbrev pub after_event :
    EventHdr
    → List EventHdr
    → Sending × Mergers
    → (Mergers → Outcomes × List EventHdr × Mergers)
    → Outcomes × List EventHdr × Mergers
after_event event queue (Sending.done, m) rest =
    ((event, Sending.done) ∷ (rest m).0, (rest m).1, (rest m).2)
after_event event queue (Sending.abandoned, m) rest =
    ((event, Sending.abandoned) ∷ (rest m).0, (rest m).1, (rest m).2)
after_event event queue (Sending.unfinished, m) rest = ((event, Sending.unfinished) ∷ [], queue, m)
after_event event queue (Sending.fault, m) rest = ((event, Sending.fault) ∷ [], queue, m)

-- `thread`, over the rounds that it runs, with the queue; a round with an empty queue only sleeps.
unfoldable pub store_events :
    List StorageTurn → List EventHdr → Mergers → Outcomes × List EventHdr × Mergers
store_events [] queue m = ([], queue, m)
store_events (turn ∷ turns) [] m =
    let rest = store_events turns [] m in if turn.is_running then rest else ([], [], m)
store_events (turn ∷ turns) (event ∷ queue) m =
    let rest =
      after_event event queue (send_popped turn event m) (λ m'. store_events turns queue m') in
    if turn.is_running then rest else ([], event ∷ queue, m)
