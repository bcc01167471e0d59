-- ===== src/System/Storage.antt =====
-- eventBuilding/StorageHandler.cpp beside the other threads: `thread` pops an event, and tries to send
-- it under `sendMutex_`, attempt by attempt; `onShutDown` of the thread that handles signals may come
-- between two attempts. A run ends at an attempt without sockets, which divides by zero.
pub mod Delivered
pub mod Reasons
pub mod Attempts
pub mod Loops
pub mod Drained
use na62_farm.Base.{ℕ, ◌≡◌, ◌≢◌, Option, none, some, List, [], ◌∷◌, ◌++◌}
use na62_farm.EventBuilding.Library.{EventHdr, Library, Config}
use na62_farm.FrameTasks.Network.{Network}
use na62_farm.Mergers.{Mergers, Attempt, Sending, Outcomes, send_event_data, destroy_all}
use na62_farm.System.{Program, Step}

-- The threads with `mergerSockets_`, and in `data_hdr` the event `data` that the storage thread holds.
pub record Plant : Type 0 where
  pub program : Program
  pub mergers : Mergers
  pub data_hdr : Option EventHdr

-- `DataQueue_.try_pop(data)`, with the queue that is left
unfoldable pub pop_event : Option EventHdr → List EventHdr → Plant → Plant
pop_event data_hdr queue p =
    let farm = p.program.farm in
    record {
      program = record p.program {
        farm = record farm { builders = record farm.builders { data_queue = queue } };
      };
      mergers = p.mergers;
      data_hdr = data_hdr;
    }

-- `break`, the end of the loop or its next round, after one attempt
unfoldable pub next_data : EventHdr → Sending → Option EventHdr
next_data event Sending.unfinished = some event
next_data event _ = none

-- one round of the inner loop
abbrev pub try_once : EventHdr → Attempt → Mergers → Sending × Mergers
try_once event attempt m = send_event_data event (attempt ∷ []) m

unfoldable pub after_attempt : EventHdr → Attempt → Plant → Plant
after_attempt event attempt p = record p {
  mergers = (try_once event attempt p.mergers).1;
  data_hdr = next_data event (try_once event attempt p.mergers).0;
}

module _ (mtu : ℕ) (net : Network) (lib : Library) (config : Config) where
  -- `message_failed`: `zmq::message_t` throws, and the event is left to no one.
  pub data PlantStep (p : Plant) : Plant → Type 0 where
    worked :
        (q : Program) → Step mtu net lib config p.program q → PlantStep p (record p { program = q })
    event_popped :
        (event : EventHdr) (queue : List EventHdr)
        → p.data_hdr ≡ none
        → p.program.farm.builders.data_queue ≡ event ∷ queue
        → PlantStep p (pop_event (some event) queue p)
    message_failed :
        (event : EventHdr) (queue : List EventHdr)
        → p.data_hdr ≡ none
        → p.program.farm.builders.data_queue ≡ event ∷ queue
        → PlantStep p (pop_event none queue p)
    attempted :
        (event : EventHdr) (attempt : Attempt)
        → p.data_hdr ≡ some event
        → (try_once event attempt p.mergers).0 ≢ Sending.fault
        → PlantStep p (after_attempt event attempt p)
    shut_down : PlantStep p (record p { mergers = destroy_all p.mergers })

  -- The steps from one state to another.
  pub data PlantRun (p : Plant) : Plant → Type 0 where
    begun : PlantRun p p
    onward : {q r : Plant} → PlantRun p q → PlantStep q r → PlantRun p r
