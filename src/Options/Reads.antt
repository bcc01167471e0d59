-- ===== src/Options/Reads.antt =====
-- Where the program reads its options, and with which of the getters of `Options`.
use na62_farm.Base.{List, [], ◌∷◌}
use na62_farm.Options.{Key, Kind}

pub data Getter : Type 0 where
  get_int get_string get_bool get_string_list get_int_pair_list : Getter

pub record Read : Type 0 where
  pub getter : Getter
  pub key : Key

abbrev reads_int : Key → Read
reads_int key = record { getter = Getter.get_int; key = key }

abbrev reads_bool : Key → Read
reads_bool key = record { getter = Getter.get_bool; key = key }

abbrev reads_string : Key → Read
reads_string key = record { getter = Getter.get_string; key = key }

abbrev reads_string_list : Key → Read
reads_string_list key = record { getter = Getter.get_string_list; key = key }

abbrev reads_int_pair_list : Key → Read
reads_int_pair_list key = record { getter = Getter.get_int_pair_list; key = key }

-- na62-farm.cpp: `main`, once `MyOptions::Load` has returned
unfoldable pub main_reads : List Read
main_reads =
    reads_int Key.zmq_io_threads
    ∷ reads_string_list Key.farm_host_names
    ∷ reads_string Key.eth_device_name
    ∷ reads_int Key.ts_sourceid
    ∷ reads_int_pair_list Key.data_source_ids
    ∷ reads_int_pair_list Key.l1_data_source_ids
    ∷ reads_int Key.first_burst_id
    ∷ reads_int Key.current_run_number
    ∷ reads_bool Key.print_missing_sources
    ∷ reads_int Key.max_number_of_events_per_burst
    ∷ reads_int Key.number_of_frags_per_l0mep
    ∷ reads_int Key.max_triggers_per_l1mrp
    ∷ reads_int Key.min_usec_between_l1_requests
    ∷ reads_string_list Key.cream_multicast_group
    ∷ reads_string_list Key.unicast_address
    ∷ reads_int Key.cream_receiver_port
    ∷ reads_int Key.cream_multicast_port
    ∷ reads_string Key.gateway_mac_address
    ∷ reads_int Key.flush_burst_millis
    ∷ reads_int Key.clean_burst_millis
    ∷ reads_int Key.ph_scheduler
    ∷ []

-- socket/PacketHandler.cpp: `thread`
unfoldable pub packet_handler_reads : List Read
packet_handler_reads =
    reads_bool Key.active_polling
    ∷ reads_int Key.polling_sleep_micros
    ∷ reads_int Key.max_frame_aggregation
    ∷ reads_int Key.polling_sleep_micros
    ∷ []

-- socket/HandleFrameTask.cpp: `initialize` and `freeContainer`
unfoldable pub handle_frame_task_reads : List Read
handle_frame_task_reads =
    reads_int Key.l0_receiver_port
    ∷ reads_int Key.cream_receiver_port
    ∷ reads_bool Key.dump_bad_packets
    ∷ []

-- eventBuilding/L1Builder.h: `initialize`
unfoldable pub l1_builder_reads : List Read
l1_builder_reads = reads_bool Key.send_mrp_with_zsuppression_flag ∷ []

-- eventBuilding/StorageHandler.cpp: `initialize` and `GetZMQAddresses`
unfoldable pub storage_handler_reads : List Read
storage_handler_reads = reads_string_list Key.merger_host_names ∷ reads_int Key.merger_port ∷ []

-- monitoring/CommandConnector.cpp: `thread`
unfoldable pub command_connector_reads : List Read
command_connector_reads = reads_bool Key.increment_burst_at_eob ∷ []

pub data Part : Type 0 where
  main packet_handler handle_frame_task l1_builder storage_handler command_connector : Part

unfoldable pub reads : Part → List Read
reads Part.main = main_reads
reads Part.packet_handler = packet_handler_reads
reads Part.handle_frame_task = handle_frame_task_reads
reads Part.l1_builder = l1_builder_reads
reads Part.storage_handler = storage_handler_reads
reads Part.command_connector = command_connector_reads

-- The type of the option that a getter is meant for: a list is written as a string.
abbrev pub kind_read : Getter → Kind
kind_read Getter.get_int = Kind.int
kind_read Getter.get_string = Kind.string
kind_read Getter.get_bool = Kind.bool
kind_read Getter.get_string_list = Kind.string
kind_read Getter.get_int_pair_list = Kind.string
