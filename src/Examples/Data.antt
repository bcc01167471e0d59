-- ===== src/Examples/Data.antt =====
-- Concrete frames, and a library and a network that tests can run.
use na62_farm.Base.{
  ℕ, zero, suc, Bool, true, false, Option, none, some, List, [], ◌∷◌, ◌≡◌, refl, ◌⊎◌, inl, inr,
  ◌==◌, length, get_elem?, arith,
}
use na62_farm.Frame.{Container, Header}
use na62_farm.Fragments.Slots.{empty_store}
use na62_farm.EventBuilding.Library.{Fragment, Library, Config}
use na62_farm.EventBuilding.State.{State, Timing}
use na62_farm.EventBuilding.QueueReceiver.{Receiver}
use na62_farm.EventBuilding.Protocol.{
  Phase, building, l1_done, requested, l2_done, stored, cut_off, dropped, freed, phase,
}
use na62_farm.EventBuilding.Protocol.Assumed.{ReportsOnce}
use na62_farm.FrameTasks.Network.{Mep, Network}
use na62_farm.FrameTasks.State.{Farm, Received}

abbrev pub or_zero : Option ℕ → ℕ
or_zero none = 0
or_zero (some n) = n

-- A frame of the examples starts with the fields of its header, one number for each.
abbrev pub field : List ℕ → ℕ → ℕ
field l i = or_zero (get_elem? l i)

abbrev pub header : List ℕ → Header
header l = record {
  ether_type = field l 0;
  protocol = field l 1;
  tot_len = field l 2;
  id = field l 3;
  saddr = field l 4;
  daddr = field l 5;
  is_fragment = field l 6 == 1;
  more_fragments = field l 7 == 1;
  offset = field l 8;
  dest_port = field l 9;
  udp_len = field l 10;
}

abbrev pub zeros : ℕ → List ℕ
zeros zero = []
zeros (suc n) = 0 ∷ zeros n

abbrev pub frame : List ℕ → Container
frame l = record { data_bytes = l; length = length l; owned = true }

-- Two fragments of a datagram: two bytes of payload, then one.
abbrev pub first_piece : Container
first_piece = frame (8 ∷ 17 ∷ 22 ∷ 1 ∷ 1 ∷ 9 ∷ 1 ∷ 1 ∷ 0 ∷ 58913 ∷ 11 ∷ zeros 25)

abbrev pub second_piece : Container
second_piece = frame (8 ∷ 17 ∷ 21 ∷ 1 ∷ 1 ∷ 9 ∷ 1 ∷ 0 ∷ 2 ∷ 0 ∷ 0 ∷ zeros 24)

-- A whole datagram for the L0 port, and an ARP request.
abbrev pub whole_frame : Container
whole_frame = frame (8 ∷ 17 ∷ 30 ∷ 2 ∷ 1 ∷ 9 ∷ 0 ∷ 0 ∷ 0 ∷ 58913 ∷ 10 ∷ zeros 33)

abbrev pub arp_frame : Container
arp_frame = frame (1544 ∷ zeros 59)

-- A fragment of the detector with the source id 2, for event 7.
abbrev pub event_fragment : Fragment
event_fragment = record {
  event_number = 7;
  source_id = 2;
  source_sub_id = 0;
  first_words = (131076, 7);
}

abbrev pub test_mep : Mep
test_mep = record {
  source_id = 2;
  first_event_num = 7;
  number_of_fragments = 1;
  fragment = λ i. event_fragment;
}

abbrev is_open : Option Phase → Bool
is_open (some building) = true
is_open (some freed) = true
is_open _ = false

abbrev is_requested : Option Phase → Bool
is_requested (some requested) = true
is_requested _ = false

-- A library that holds every event, completes it with any fragment, and accepts it everywhere.
abbrev pub library : Library
library = record {
  get_event = λ h n. some n;
  l0_complete = λ h e f b. is_open (phase e h);
  l1_complete = λ h e f. is_requested (phase e h);
  reference_timestamp = λ h e. 40;
  timestamp = λ h e. 40;
  burst_of = λ h e. 3;
  l0_trigger_type_word = λ h e. 1;
  l1_trigger = λ h e. 1;
  l2_trigger = λ h e. 1;
  non_z_suppressed_trigger = λ h e. 0;
  is_l2_accepted = λ h e. true;
  is_waiting_for_non_z_suppressed = λ h e. false;
  is_request_zero_suppressed = λ h e. false;
  store_succeeds = λ h e. true;
  serialized = λ h e. record { words = 6; burst_id = 3 };
  l0_building_time = λ h e. 20;
  l1_building_time = λ h e. 5;
  l1_processing_time = λ h e. 4;
  l2_processing_time = λ h e. 3;
  serialization_time = λ h e. 2;
  seconds_index = λ t. 0;
  current_burst_id = λ h. 3;
}

-- No data is requested after L1, so an event goes on to L2 at once.
abbrev pub config : Config
config = record {
  measure_time = true;
  use_shared_memory = false;
  expected_l1_packets = 0;
  is_l2_active = true;
  request_z_suppressed_lkr_data = false;
}

open_phase : (o : Option Phase) → is_open o ≡ true → (o ≡ some building) ⊎ (o ≡ some freed)
open_phase none e = ground arith
open_phase (some building) e = inl refl
open_phase (some l1_done) e = ground arith
open_phase (some requested) e = ground arith
open_phase (some l2_done) e = ground arith
open_phase (some stored) e = ground arith
open_phase (some cut_off) e = ground arith
open_phase (some dropped) e = ground arith
open_phase (some freed) e = inr refl

requested_phase : (o : Option Phase) → is_requested o ≡ true → o ≡ some requested
requested_phase none e = ground arith
requested_phase (some building) e = ground arith
requested_phase (some l1_done) e = ground arith
requested_phase (some requested) e = refl
requested_phase (some l2_done) e = ground arith
requested_phase (some stored) e = ground arith
requested_phase (some cut_off) e = ground arith
requested_phase (some dropped) e = ground arith
requested_phase (some freed) e = ground arith

pub library-ReportsOnce : ReportsOnce library
library-ReportsOnce = record {
  l0_once = λ h e f b p. open_phase (phase e h) p;
  l1_once = λ h e f p. requested_phase (phase e h) p;
}

abbrev no_time : Timing
no_time = record { cumulative = 0; max_time = 0; vs_event_number = λ r c. 0 }

abbrev pub initial : State
initial = record {
  calls = [];
  l1_requests = 0;
  l0_building = no_time;
  l1_processing = no_time;
  l1_building = record no_time { max_time = 10 };
  l2_processing = no_time;
  serialization_vs_event_number = λ r c. 0;
  data_queue = [];
}

abbrev pub receiver : Receiver
receiver = record {
  highest_burst_id_received = 0;
  event_received_per_burst = 0;
  builders = initial;
}

abbrev pub network : Network
network = record {
  header = header;
  arp_header = λ l. record { target_ip = 9; source_hardware = []; source_ip = 1 };
  l0_mep = λ l n. some test_mep;
  l1_mep = λ l n. none;
  l0_mep_of_block = λ b n. some test_mep;
  source_id_to_num = λ n. some n;
  l1_source_id_to_num = λ n. none;
  source_id_l0tp = 64;
  source_id_l1 = 65;
  source_id_l2 = 66;
  source_id_nstd = 67;
  is_l1_active = true;
  is_nstd_active = false;
  l1_data_packet_size = 24;
  l2_data_packet_size = 12;
  generate_arp_reply = λ hw ip. frame (1544 ∷ zeros 59);
  my_ip = 9;
  l0_port = 58913;
  cream_port = 58915;
  dump_bad_packets = true;
  number_of_l0_sources = 16;
  number_of_l1_sources = 4;
}

abbrev nothing_received : Received
nothing_received = record { meps = λ i. 0; bytes = λ i. 0 }

abbrev pub farm : Farm
farm = record {
  builders = initial;
  store = empty_store;
  l0_received = nothing_received;
  l1_received = nothing_received;
  freed = [];
  dumped = [];
  sent = [];
}
