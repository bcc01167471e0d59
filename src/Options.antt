-- ===== src/Options.antt =====
-- options/MyOptions.h: the options of the program, and what is left to the class `Options` of
-- na62-farm-lib, which reads their values. The help texts are left out.
pub mod Reads
pub mod Loaded
use Prim.Native.String.{String}
use na62_farm.Base.{ℕ, Bool, false, true, List, [], ◌∷◌}

pub data Key : Type 0 where
  config_file eth_device_name gateway_mac_address l0_receiver_port cream_receiver_port : Key
  data_source_ids l1_data_source_ids ts_sourceid cream_crates first_burst_id : Key
  current_run_number cream_multicast_group cream_multicast_port max_triggers_per_l1mrp : Key
  send_mrp_with_zsuppression_flag increment_burst_at_eob min_usec_between_l1_requests : Key
  unicast_address merger_host_names merger_port ph_scheduler zmq_io_threads active_polling : Key
  polling_delay polling_sleep_micros max_frame_aggregation max_aggregation_time : Key
  flush_burst_millis clean_burst_millis muv_cream_crate_id print_missing_sources : Key
  dump_bad_packets max_number_of_events_per_burst number_of_frags_per_l0mep : Key
  farm_host_names : Key

-- The macros. `OPTION_CONFIG_FILE` is one of the library.
unfoldable pub name : String → Key → String
name config_name Key.config_file = config_name
name config_name Key.eth_device_name = "ethDeviceName"
name config_name Key.gateway_mac_address = "gatewayMAC"
name config_name Key.l0_receiver_port = "L0Port"
name config_name Key.cream_receiver_port = "CREAMPort"
name config_name Key.data_source_ids = "L0DataSourceIDs"
name config_name Key.l1_data_source_ids = "L1DataSourceIDs"
name config_name Key.ts_sourceid = "timestampSourceID"
name config_name Key.cream_crates = "CREAMCrates"
name config_name Key.first_burst_id = "firstBurstID"
name config_name Key.current_run_number = "currentRunNumber"
name config_name Key.cream_multicast_group = "creamMulticastIP"
name config_name Key.cream_multicast_port = "creamMulticastPort"
name config_name Key.max_triggers_per_l1mrp = "maxTriggerPerL1MRP"
name config_name Key.send_mrp_with_zsuppression_flag = "sendMRPsWithZSuppressionFlag"
name config_name Key.increment_burst_at_eob = "incrementBurstAtEOB"
name config_name Key.min_usec_between_l1_requests = "minUsecsBetweenL1Requests"
name config_name Key.unicast_address = "unicastIP"
name config_name Key.merger_host_names = "mergerHostNames"
name config_name Key.merger_port = "mergerPort"
name config_name Key.ph_scheduler = "packetHandlerScheduler"
name config_name Key.zmq_io_threads = "zmqIoThreads"
name config_name Key.active_polling = "activePolling"
name config_name Key.polling_delay = "pollingDelay"
name config_name Key.polling_sleep_micros = "pollingSleepMicros"
name config_name Key.max_frame_aggregation = "maxFramesAggregation"
name config_name Key.max_aggregation_time = "maxAggregationTime"
name config_name Key.flush_burst_millis = "flushBurstMillis"
name config_name Key.clean_burst_millis = "cleanBurstMillis"
name config_name Key.muv_cream_crate_id = "muvCreamCrateID"
name config_name Key.print_missing_sources = "printMissingSources"
name config_name Key.dump_bad_packets = "dumpBadPackets"
name config_name Key.max_number_of_events_per_burst = "maxNumberOfEventsPerBurst"
name config_name Key.number_of_frags_per_l0mep = "numberOfFragmentsPerMEP"
name config_name Key.farm_host_names = "farmHostNames"

-- `po::value<T>()`
pub data Kind : Type 0 where
  string int double bool : Kind

pub data Value : Type 0 where
  text : String → Value
  number : ℕ → Value
  decimal : ℕ → Value
  flag : Bool → Value

abbrev pub kind_of : Value → Kind
kind_of (Value.text s) = Kind.string
kind_of (Value.number n) = Kind.int
kind_of (Value.decimal n) = Kind.double
kind_of (Value.flag b) = Kind.bool

pub data Presence : Type 0 where
  required : Presence
  default_value : Value → Presence

pub record Declaration : Type 0 where
  pub key : Key
  pub kind : Kind
  pub presence : Presence

abbrev required_value : Key → Kind → Declaration
required_value key kind = record { key = key; kind = kind; presence = required }

abbrev string_value : Key → String → Declaration
string_value key s = record {
  key = key;
  kind = Kind.string;
  presence = default_value (Value.text s);
}

abbrev int_value : Key → ℕ → Declaration
int_value key n = record { key = key; kind = Kind.int; presence = default_value (Value.number n) }

-- of a whole number
abbrev double_value : Key → ℕ → Declaration
double_value key n = record {
  key = key;
  kind = Kind.double;
  presence = default_value (Value.decimal n);
}

abbrev bool_value : Key → Bool → Declaration
bool_value key b = record { key = key; kind = Kind.bool; presence = default_value (Value.flag b) }

-- `desc.add_options()`
unfoldable pub declarations : List Declaration
declarations =
    string_value Key.config_file "/etc/na62-farm.conf"
    ∷ string_value Key.eth_device_name "zc:enp130s0f0"
    ∷ string_value Key.gateway_mac_address "00:11:22:33:44:55"
    ∷ int_value Key.l0_receiver_port 58913
    ∷ required_value Key.farm_host_names Kind.string
    ∷ int_value Key.max_number_of_events_per_burst 2000000
    ∷ int_value Key.number_of_frags_per_l0mep 8
    ∷ required_value Key.data_source_ids Kind.string
    ∷ string_value Key.l1_data_source_ids ""
    ∷ int_value Key.cream_receiver_port 58915
    ∷ string_value Key.cream_crates "0:0"
    ∷ string_value Key.ts_sourceid "0x40"
    ∷ required_value Key.first_burst_id Kind.int
    ∷ int_value Key.current_run_number 1
    ∷ int_value Key.min_usec_between_l1_requests 1000
    ∷ required_value Key.unicast_address Kind.string
    ∷ required_value Key.merger_host_names Kind.string
    ∷ required_value Key.merger_port Kind.int
    ∷ required_value Key.cream_multicast_group Kind.string
    ∷ int_value Key.cream_multicast_port 58914
    ∷ int_value Key.max_triggers_per_l1mrp 100
    ∷ int_value Key.send_mrp_with_zsuppression_flag 0
    ∷ int_value Key.zmq_io_threads 1
    ∷ int_value Key.ph_scheduler 2
    ∷ int_value Key.active_polling 1
    ∷ double_value Key.polling_delay 100000
    ∷ int_value Key.polling_sleep_micros 10000
    ∷ int_value Key.max_frame_aggregation 100000
    ∷ int_value Key.max_aggregation_time 100000
    ∷ bool_value Key.increment_burst_at_eob false
    ∷ bool_value Key.print_missing_sources false
    ∷ bool_value Key.dump_bad_packets false
    ∷ int_value Key.flush_burst_millis 3000
    ∷ int_value Key.clean_burst_millis 5000
    ∷ []
