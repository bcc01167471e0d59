-- ===== src/Examples/Interleaved.antt =====
-- The threads of the farm with two task processors: a frame is received and handled, and the burst
-- ends.
use na62_farm.Base.{◌≡◌, refl, true, false, Option, none, some, List, [], ◌∷◌}
use na62_farm.Fragments.Invariant.{IsSettled, empty_store-IsSettled}
use na62_farm.EventBuilding.Justified.{IsJustified}
use na62_farm.FrameTasks.State.{Farm, choose, and_then, with_value, modify, finish, on_builders}
use na62_farm.FrameTasks.Process.{
  check_frame, process_frame, process_datagram, process_l0, process_arp_request, invent,
  invent_blocks, execute,
}
use na62_farm.Packets.{Poll, Task, store_frame, gather}
use na62_farm.Tasks.{Turn, process_tasks}
use na62_farm.Burst.Finished.{EndOfBurst, is_leaking, on_burst_finished}
use na62_farm.System.{
  Program, push_task, pop_task, frame_done, delete_task, gathered, popped, handled, deleted,
  burst_finished, Reach, start, later,
}
use na62_farm.System.Queue.{IsCounted, Reach-IsCounted}
use na62_farm.System.Safety.{Reach-IsSettled, Reach-IsJustified}
use na62_farm.System.Rounds.{with_worker, IsReached, process_tasks-IsReached}
use na62_farm.Burst.{Pooled}
use na62_farm.EventBuilding.Library.{Call}
use na62_farm.EventBuilding.State.{State}
use na62_farm.Examples.Data.{
  initial, event_fragment, header, network, library, config, farm, whole_frame,
}

abbrev pub began : Program
began = record {
  farm = farm;
  highest_burst_id_received = 0;
  event_received_per_burst = 0;
  tasks_queue = [];
  queued_tasks_num = 0;
  workers = none ∷ none ∷ [];
}

abbrev polls : List Poll
polls = record { running = true; received = some whole_frame.data_bytes; flush_burst = false } ∷ []

abbrev task : Task
task = record { containers = whole_frame ∷ []; burst_id = 3 }

abbrev or_farm : Option Farm → Farm
or_farm none = farm
or_farm (some s) = s

handled_farm : Farm
handled_farm = or_farm (execute network library config 3 ((whole_frame, false) ∷ []) farm)

frame_handled :
    execute network library config 3 ((whole_frame, false) ∷ []) farm ≡ some handled_farm
unfolding handled_farm execute process_frame process_datagram process_l0 invent_blocks invent choose
    and_then with_value modify finish on_builders check_frame process_arp_request
frame_handled = refl

-- The second processor takes the task.
run : (p : Program) × Reach 1500 network library config began p
unfolding gather store_frame push_task pop_task frame_done delete_task
run = (
  _,
  later
      (later
        (later (later start (gathered polls whole_frame [] 3 refl))
          (popped (none ∷ []) [] task [] refl refl))
        (handled (none ∷ []) [] task whole_frame [] false handled_farm refl refl frame_handled))
      (deleted (none ∷ []) [] (record task { containers = [] }) refl refl),
)

Reach-IsCounted_example : IsCounted run.0
Reach-IsCounted_example = Reach-IsCounted 1500 network library config began run.0 run.1 refl

abbrev end_of_burst : EndOfBurst
end_of_burst = record { pool = none ∷ []; waiting_for_l1 = 1; resident = 100; page_size = 4096 }

ended : (p : Program) × Reach 1500 network library config began p
unfolding on_burst_finished is_leaking
ended = (_, later run.1 (burst_finished end_of_burst refl))

Reach-IsSettled_example : IsSettled header ended.0.farm.store
Reach-IsSettled_example =
    Reach-IsSettled 1500 network library config ended.1 (empty_store-IsSettled header)

abbrev turns : List Turn
turns = record { running = true; flush_burst = λ i. false } ∷ []

queue_drained :
    process_tasks network library config turns (task ∷ []) farm ≡ some ([], handled_farm)
unfolding process_tasks handled_farm execute process_frame process_datagram process_l0 invent_blocks
    invent choose and_then with_value modify finish on_builders check_frame process_arp_request
queue_drained = refl

process_tasks-IsReached_example :
    IsReached 1500 network library config 0 0
      (none ∷ [])
      []
      (with_worker 1500 network library config 0 0 (none ∷ []) [] began farm (task ∷ []) 1 none)
      1
      (task ∷ [])
      []
      handled_farm
process_tasks-IsReached_example =
    process_tasks-IsReached 1500 network library config 0 0 (none ∷ []) [] _ turns (task ∷ []) []
      farm handled_farm 1 queue_drained start

-- Two tasks for two processors.
abbrev pub waiting_program : Program
waiting_program = record began { tasks_queue = task ∷ task ∷ []; queued_tasks_num = 2 }

-- The burst ends while the first fragment of its last event is all that there is of it; then a
-- frame is received and handled.
abbrev unfinished_slots : List (Option Pooled)
unfinished_slots =
    some (record {
      event = 4;
      is_last_event_of_burst = true;
      is_unfinished = true;
      is_l1_requested = false;
      is_mep_header_corrupted = false;
    })
    ∷ none
    ∷ []

abbrev open_state : State
open_state = record initial { calls = Call.add_l0_fragment 4 event_fragment 3 ∷ [] }

abbrev pub open_program : Program
open_program = record began { farm = record farm { builders = open_state } }

abbrev pub unfinished_burst : EndOfBurst
unfinished_burst = record end_of_burst { pool = unfinished_slots }

abbrev next_farm : Farm
next_farm = (on_burst_finished network library config unfinished_burst open_program.farm).farm

last_farm : Farm
last_farm = or_farm (execute network library config 3 ((whole_frame, false) ∷ []) next_farm)

next_frame_handled :
    execute network library config 3 ((whole_frame, false) ∷ []) next_farm ≡ some last_farm
unfolding last_farm execute process_frame process_datagram process_l0 invent_blocks invent choose
    and_then with_value modify finish on_builders check_frame process_arp_request
next_frame_handled = refl

next_burst : (p : Program) × Reach 1500 network library config open_program p
unfolding gather store_frame push_task pop_task frame_done on_burst_finished is_leaking
next_burst = (
  _,
  later
      (later
        (later (later start (burst_finished unfinished_burst refl))
          (gathered polls whole_frame [] 3 refl))
        (popped (none ∷ []) [] task [] refl refl))
      (handled (none ∷ []) [] task whole_frame [] false last_farm refl refl next_frame_handled),
)

Reach-IsJustified_example : IsJustified library config next_burst.0.farm.builders.calls
Reach-IsJustified_example = Reach-IsJustified 1500 network library config next_burst.1 tt
