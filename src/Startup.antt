-- ===== src/Startup.antt =====
-- na62-farm.cpp: `main`, which initialises the parts of the program and starts their threads, and
-- `FarmShutdown::myHandleStop`, which ends it.
pub mod Nodes
pub mod Order
use na62_farm.Base.{
  ℕ, zero, suc, ◌+◌, ◌-◌, ◌/◌, ◌%◌, Bool, true, false, Option, none, some, List, [], ◌∷◌, ◌++◌,
  ◌==◌, length, if◌then◌else◌,
}
use na62_farm.Base.Words.{u32}

-- The calls of `main` that initialise a part or start a thread, in the words of the source;
-- `exit_program` is a call of `exit` or the return.
pub data Action : Type 0 where
  init_shutdown : Action
  load_trigger_options load_my_options : Action
  initialize_zmq : Action
  fill_hlt_struct initialize_l1_trigger_processor initialize_l2_trigger_processor : Action
  initialize_hlt_statistics : ℕ → Action
  initialize_network start_arp_sender : Action
  initialize_source_ids : Action
  initialize_burst_ids : Action
  initialize_handle_frame_task : Action
  initialize_serializer initialize_storage_handler start_storage_handler : Action
  initialize_shared_memory start_queue_receiver : Action
  initialize_l1_builder initialize_l2_builder initialize_event : Action
  initialize_detector_statistics : ℕ → ℕ → Action
  clear_l0_detector_statistics clear_l1_detector_statistics : Action
  set_state_initializing start_monitor_connector set_state_running : Action
  initialize_event_pool : ℕ → ℕ → Action
  initialize_l1_distribution_handler : Action
  initialize_burst_times start_burst_handler start_l1_distribution_handler : Action
  start_packet_handler : ℕ → ℕ → Action
  start_task_processor : ℕ → Action
  start_command_connector : Action
  join_all : Action
  exit_program : ℕ → Action

-- What `main` reads: whether ZeroMQ and the storage handler throw, the option of the farm's nodes
-- and the own address, the number of network queues and of processors, and USE_SHAREDMEMORY.
pub record Environment (Name : Type 0) : Type 0 where
  pub zmq_fails : Bool
  pub storage_handler_fails : Bool
  pub nodes : List Name
  pub my_ip : Name
  pub number_of_queues : ℕ
  pub hardware_concurrency : ℕ
  pub use_shared_memory : Bool

abbrev pub no_node : ℕ
no_node = 0xffffffff

-- `coresPerSocket`
abbrev pub cores_per_socket : ℕ → ℕ
cores_per_socket hardware_concurrency = hardware_concurrency / 2

unfoldable pub cpu_mask : ℕ → ℕ → ℕ
cpu_mask hardware_concurrency i =
    if i % 2 == 0 then i / 2 else u32 (cores_per_socket hardware_concurrency + i / 2)

-- the loop over the packet handlers, as the first `n` rounds
unfoldable pub start_packet_handlers : ℕ → ℕ → List Action
start_packet_handlers hardware_concurrency zero = []
start_packet_handlers hardware_concurrency (suc n) =
    start_packet_handlers hardware_concurrency n
    ++ Action.start_packet_handler n (cpu_mask hardware_concurrency n) ∷ []

unfoldable pub start_task_processors : ℕ → List Action
start_task_processors zero = []
start_task_processors (suc n) = start_task_processors n ++ Action.start_task_processor n ∷ []

-- `hardware_concurrency() - numberOfPacketHandler`, both unsigned
unfoldable pub number_of_task_processors : ℕ → ℕ → ℕ
number_of_task_processors hardware_concurrency packet_handlers =
    u32 (hardware_concurrency + 4294967296 - packet_handlers)

-- Whether two strings are equal is a parameter.
module _ {Name : Type 0} (same : Name → Name → Bool) where
  -- the loop that looks for the own address in the list of nodes, from an index on
  unfoldable pub find_node : Name → List Name → ℕ → ℕ
  find_node my_ip [] i = no_node
  find_node my_ip (node ∷ nodes) i =
      let rest = find_node my_ip nodes (i + 1) in if same my_ip node then u32 i else rest

  unfoldable pub logical_node_id : Environment Name → ℕ
  logical_node_id env = find_node env.my_ip env.nodes 0

  unfoldable pub start_threads : Environment Name → List Action
  start_threads env =
      let handlers = env.number_of_queues in
      start_packet_handlers env.hardware_concurrency handlers
      ++ start_task_processors (number_of_task_processors env.hardware_concurrency handlers)
      ++ Action.start_command_connector
        ∷ Action.set_state_running
        ∷ Action.join_all
        ∷ Action.exit_program 0
        ∷ []

  -- the part under USE_SHAREDMEMORY
  unfoldable pub share_memory : Bool → List Action
  share_memory use_shared_memory =
      if use_shared_memory
      then Action.initialize_shared_memory ∷ Action.start_queue_receiver ∷ []
      else []

  -- `main` after the storage handler
  unfoldable pub run_farm : Environment Name → List Action
  run_farm env =
      Action.start_storage_handler ∷ share_memory env.use_shared_memory
      ++ Action.initialize_l1_builder
        ∷ Action.initialize_l2_builder
        ∷ Action.initialize_event
        ∷ Action.initialize_detector_statistics 20 32
        ∷ Action.clear_l0_detector_statistics
        ∷ Action.clear_l1_detector_statistics
        ∷ Action.set_state_initializing
        ∷ Action.start_monitor_connector
        ∷ Action.initialize_event_pool (length env.nodes) (logical_node_id env)
        ∷ Action.initialize_l1_distribution_handler
        ∷ Action.initialize_burst_times
        ∷ Action.start_burst_handler
        ∷ Action.start_l1_distribution_handler
        ∷ []
      ++ start_threads env

  -- `main` after the search for the own node
  unfoldable pub initialize_node : Environment Name → List Action
  initialize_node env =
      Action.initialize_hlt_statistics (logical_node_id env)
        ∷ Action.initialize_network
        ∷ Action.start_arp_sender
        ∷ Action.initialize_source_ids
        ∷ Action.initialize_burst_ids
        ∷ Action.initialize_handle_frame_task
        ∷ Action.initialize_serializer
        ∷ Action.initialize_storage_handler
        ∷ []
      ++ (if env.storage_handler_fails then Action.exit_program 1 ∷ [] else run_farm env)

  unfoldable pub main : Environment Name → List Action
  main env =
      Action.init_shutdown ∷ Action.load_trigger_options ∷ Action.load_my_options
        ∷ Action.initialize_zmq ∷ []
      ++ (if env.zmq_fails
          then Action.exit_program 1 ∷ []
          else Action.fill_hlt_struct ∷ Action.initialize_l1_trigger_processor
              ∷ Action.initialize_l2_trigger_processor ∷ []
            ++ (if logical_node_id env == no_node
                then Action.exit_program 1 ∷ []
                else initialize_node env))

-- The calls of `myHandleStop`.
pub data Stop : Type 0 where
  shutdown_logging set_state_initializing : Stop
  stop_zmq interrupt_all : Stop
  stop_packet_handler : ℕ → Stop
  shut_down_storage_handler shut_down_ipc_handler shut_down_zmq_handler : Stop
  shut_down_burst_handler : Stop
  exit_program : ℕ → Stop

unfoldable pub stop_packet_handlers : ℕ → List Stop
stop_packet_handlers zero = []
stop_packet_handlers (suc n) = stop_packet_handlers n ++ Stop.stop_packet_handler n ∷ []

-- `use_glog` is the build flag, and `error` says whether the signal handler got an error code.
unfoldable pub handle_stop : (use_glog error : Bool) (packet_handlers : ℕ) → List Stop
handle_stop use_glog error packet_handlers =
    let rest =
      Stop.stop_zmq ∷ Stop.interrupt_all ∷ stop_packet_handlers packet_handlers
      ++ Stop.shut_down_storage_handler
        ∷ Stop.shut_down_ipc_handler
        ∷ Stop.shut_down_zmq_handler
        ∷ Stop.shut_down_burst_handler
        ∷ Stop.exit_program 0
        ∷ [] in
    (if use_glog then Stop.shutdown_logging ∷ [] else [])
    ++ Stop.set_state_initializing ∷ (if error then [] else rest)
