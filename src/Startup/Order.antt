-- ===== src/Startup/Order.antt =====
-- na62-farm.cpp: the order in which `main` starts the threads, against the parts that they use.
use na62_farm.Base.{ℕ, Bool, false, ◌||◌, List, [], ◌∷◌, ◌++◌, ◌==◌, if◌then◌else◌}
use na62_farm.Startup.{
  Action, init_shutdown, load_my_options, initialize_zmq, initialize_l1_trigger_processor,
  initialize_l2_trigger_processor, initialize_hlt_statistics, initialize_network, start_arp_sender,
  initialize_source_ids, initialize_burst_ids, initialize_handle_frame_task, initialize_serializer,
  initialize_storage_handler, start_storage_handler, initialize_shared_memory, start_queue_receiver,
  initialize_l1_builder, initialize_l2_builder, initialize_event, initialize_detector_statistics,
  start_monitor_connector, initialize_event_pool, initialize_l1_distribution_handler,
  initialize_burst_times, start_burst_handler, start_l1_distribution_handler, start_packet_handler,
  start_task_processor, start_command_connector,
}

-- The parts of the program that have to be initialised.
pub data Part : Type 0 where
  shutdown options zmq l1_trigger l2_trigger hlt_statistics network source_ids burst_ids : Part
  frame_tasks serializer storage shared_memory l1_builder l2_builder event_counters : Part
  detector_statistics event_pool l1_distribution burst_times : Part

abbrev number_of : Part → ℕ
number_of Part.shutdown = 0
number_of Part.options = 1
number_of Part.zmq = 2
number_of Part.l1_trigger = 3
number_of Part.l2_trigger = 4
number_of Part.hlt_statistics = 5
number_of Part.network = 6
number_of Part.source_ids = 7
number_of Part.burst_ids = 8
number_of Part.frame_tasks = 9
number_of Part.serializer = 10
number_of Part.storage = 11
number_of Part.shared_memory = 12
number_of Part.l1_builder = 13
number_of Part.l2_builder = 14
number_of Part.event_counters = 15
number_of Part.detector_statistics = 16
number_of Part.event_pool = 17
number_of Part.l1_distribution = 18
number_of Part.burst_times = 19

-- The part that an action initialises.
abbrev initialized : Action → List Part → List Part
initialized init_shutdown l = Part.shutdown ∷ l
initialized load_my_options l = Part.options ∷ l
initialized initialize_zmq l = Part.zmq ∷ l
initialized initialize_l1_trigger_processor l = Part.l1_trigger ∷ l
initialized initialize_l2_trigger_processor l = Part.l2_trigger ∷ l
initialized (initialize_hlt_statistics n) l = Part.hlt_statistics ∷ l
initialized initialize_network l = Part.network ∷ l
initialized initialize_source_ids l = Part.source_ids ∷ l
initialized initialize_burst_ids l = Part.burst_ids ∷ l
initialized initialize_handle_frame_task l = Part.frame_tasks ∷ l
initialized initialize_serializer l = Part.serializer ∷ l
initialized initialize_storage_handler l = Part.storage ∷ l
initialized initialize_shared_memory l = Part.shared_memory ∷ l
initialized initialize_l1_builder l = Part.l1_builder ∷ l
initialized initialize_l2_builder l = Part.l2_builder ∷ l
initialized initialize_event l = Part.event_counters ∷ l
initialized (initialize_detector_statistics m n) l = Part.detector_statistics ∷ l
initialized (initialize_event_pool m n) l = Part.event_pool ∷ l
initialized initialize_l1_distribution_handler l = Part.l1_distribution ∷ l
initialized initialize_burst_times l = Part.burst_times ∷ l
initialized _ l = l

-- What the builders and the end of a burst work on.
abbrev building : List Part
building =
    Part.options ∷ Part.l1_trigger ∷ Part.l2_trigger ∷ Part.hlt_statistics ∷ Part.source_ids
    ∷ Part.burst_ids ∷ Part.serializer ∷ Part.storage ∷ Part.l1_builder ∷ Part.l2_builder
    ∷ Part.event_counters ∷ Part.event_pool ∷ []

-- The parts that the code of this repository calls in a thread.
abbrev used : Action → List Part
used start_arp_sender = Part.network ∷ []
used start_storage_handler = Part.options ∷ Part.zmq ∷ Part.storage ∷ []
used start_queue_receiver = Part.shared_memory ∷ Part.l1_distribution ∷ building
used start_monitor_connector =
    Part.hlt_statistics ∷ Part.network ∷ Part.source_ids ∷ Part.burst_ids ∷ Part.frame_tasks
    ∷ Part.l1_builder ∷ Part.l2_builder ∷ Part.event_counters ∷ Part.l1_distribution ∷ []
used start_burst_handler = Part.burst_times ∷ Part.frame_tasks ∷ Part.detector_statistics ∷ building
used start_l1_distribution_handler = Part.network ∷ Part.l1_distribution ∷ []
used (start_packet_handler i mask) = Part.options ∷ Part.network ∷ Part.burst_ids ∷ []
used (start_task_processor i) = Part.network ∷ Part.frame_tasks ∷ Part.l1_distribution ∷ building
used start_command_connector = Part.options ∷ Part.burst_ids ∷ []
used _ = []

abbrev is_in : List Part → Part → Bool
is_in [] p = false
is_in (q ∷ l) p = (number_of q == number_of p) || is_in l p

-- The uses by an action of parts that were not initialised before it.
abbrev missing : List Part → Action → List Part → List (Action × Part)
missing done a [] = []
missing done a (p ∷ l) = if is_in done p then missing done a l else (a, p) ∷ missing done a l

abbrev pub too_early : List Part → List Action → List (Action × Part)
too_early done [] = []
too_early done (a ∷ l) = missing done a (used a) ++ too_early (initialized a done) l

-- The parts that are initialised when the storage handler starts, and when the packet handlers do.
abbrev early : List Part
early =
    Part.storage ∷ Part.serializer ∷ Part.frame_tasks ∷ Part.burst_ids ∷ Part.source_ids
    ∷ Part.network ∷ Part.hlt_statistics ∷ Part.l2_trigger ∷ Part.l1_trigger ∷ Part.zmq
    ∷ Part.options ∷ Part.shutdown ∷ []

abbrev late : List Part → List Part
late l =
    Part.burst_times ∷ Part.l1_distribution ∷ Part.event_pool ∷ Part.detector_statistics
    ∷ Part.event_counters ∷ Part.l2_builder ∷ Part.l1_builder ∷ l

-- What the thread that takes the answers of the trigger processes uses too early.
abbrev pub early_answers : List (Action × Part)
early_answers =
    (start_queue_receiver, Part.l1_distribution)
    ∷ (start_queue_receiver, Part.l1_builder)
    ∷ (start_queue_receiver, Part.l2_builder)
    ∷ (start_queue_receiver, Part.event_counters)
    ∷ (start_queue_receiver, Part.event_pool)
    ∷ []

-- With the counters of the L1 distribution handler that the monitoring reads.
abbrev pub all_early : Bool → List (Action × Part)
all_early use_shared_memory =
    (if use_shared_memory then early_answers else [])
    ++ (start_monitor_connector, Part.l1_distribution) ∷ []
