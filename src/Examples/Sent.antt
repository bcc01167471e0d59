-- ===== src/Examples/Sent.antt =====
-- socket/PacketHandler.cpp and eventBuilding/StorageHandler.cpp at a few frames and sockets.
use na62_farm.Base.{◌≡◌, refl, inl, inr, true, false, none, some, List, [], ◌∷◌, arith}
use na62_farm.EventBuilding.Library.{EventHdr}
use na62_farm.Packets.{Round, Handler, thread}
use na62_farm.Packets.Gathered.{queued_frames, thread-queued}
use na62_farm.Mergers.{
  Mergers, Attempt, interrupted, failed, delivered, set_mergers, StorageTurn, store_events,
}
use na62_farm.Mergers.Delivery.{set_mergers-connected}
use na62_farm.Mergers.Drained.{
  IsInOrder, AllDelivered, store_events-IsInOrder, store_events-AllDelivered,
}
use na62_farm.Examples.Data.{frame}

-- A frame, one that is too long, one during a flush, and nothing.
abbrev round : Round
round = record {
  running = true;
  polls =
      record { running = true; received = some (1 ∷ 2 ∷ []); flush_burst = false }
      ∷ record { running = true; received = some (1 ∷ 2 ∷ 3 ∷ []); flush_burst = false }
      ∷ record { running = true; received = some (4 ∷ []); flush_burst = true }
      ∷ record { running = true; received = none; flush_burst = false }
      ∷ [];
  current_burst_id = 3;
}

abbrev idle : Handler
idle = record { tasks_queue = []; tasks_spawned = 0; sleeps = 0 }

thread-queued_example :
    queued_frames (thread 2 (round ∷ []) idle).tasks_queue ≡ frame (1 ∷ 2 ∷ []) ∷ []
thread-queued_example = thread-queued 2 (round ∷ []) idle

abbrev mergers : Mergers
mergers = record { merger_sockets = 10 ∷ 11 ∷ []; destroyed = []; sent = [] }

abbrev event : EventHdr
event = record { words = 6; burst_id = 3 }

-- An interrupted attempt, a failed one after which the mergers are set again, and a good one.
abbrev attempts : List Attempt
attempts =
    record { is_running = true; result = interrupted; connections = some 12 ∷ [] }
    ∷ record { is_running = true; result = failed; connections = some 13 ∷ none ∷ [] }
    ∷ record { is_running = true; result = delivered; connections = some 14 ∷ [] }
    ∷ []

set_mergers-connected_example :
    set_mergers (some 12 ∷ some 13 ∷ []) mergers
    ≡ (true, record { merger_sockets = 12 ∷ 13 ∷ []; destroyed = 10 ∷ 11 ∷ []; sent = [] })
set_mergers-connected_example = set_mergers-connected (12 ∷ 13 ∷ []) mergers

abbrev second_event : EventHdr
second_event = record { words = 9; burst_id = 4 }

-- A round whose first attempts fail, and one that delivers at once.
abbrev storage_turns : List StorageTurn
storage_turns =
    record { is_running = true; message_fails = false; attempts = attempts }
    ∷ record {
      is_running = true;
      message_fails = false;
      attempts = record { is_running = true; result = delivered; connections = some 15 ∷ [] } ∷ [];
    }
    ∷ []

store_events-IsInOrder_example :
    IsInOrder
      (event ∷ second_event ∷ [])
      []
      (store_events storage_turns (event ∷ second_event ∷ []) mergers)
store_events-IsInOrder_example =
    store_events-IsInOrder storage_turns (event ∷ second_event ∷ []) mergers

store_events-AllDelivered_example :
    AllDelivered
      (event ∷ second_event ∷ [])
      (store_events storage_turns (event ∷ second_event ∷ []) mergers)
store_events-AllDelivered_example =
    store_events-AllDelivered storage_turns (event ∷ second_event ∷ []) mergers (omega arith)
      (
        (refl, refl, (refl, inr (tt, (refl, inr (tt, (refl, inl refl)))))),
        ((refl, refl, (refl, inl refl)), tt),
      )
      (omega arith)
