-- ===== src/FrameTasks/Network.antt =====
-- What socket/HandleFrameTask.cpp takes from na62-farm-lib: the parsers of MEPs and of ARP headers,
-- the tables of SourceIDManager, the sizes of the trigger blocks, addresses and options.
use na62_farm.Base.{ℕ, Bool, List, Option}
use na62_farm.Frame.{Container, Header}
use na62_farm.EventBuilding.Library.{Fragment}

-- An `l0::MEP*` or `l1::MEP*`: `fragment` is `getFragment` or `getEvent`.
pub record Mep : Type 0 where
  pub source_id : ℕ
  pub first_event_num : ℕ
  pub number_of_fragments : ℕ
  pub fragment : ℕ → Fragment

-- A buffer that the program fills for a new MEP: the header and, for each event, the position in the
-- buffer and the first eight bytes as two words. The other bytes stay uninitialised.
pub record Block : Type 0 where
  pub allocated : ℕ
  pub first_event_num : ℕ
  pub source_id : ℕ
  pub mep_length : ℕ
  pub event_count : ℕ
  pub events : List (ℕ × ℕ × ℕ)

pub record ArpHeader : Type 0 where
  pub target_ip : ℕ
  pub source_hardware : List ℕ
  pub source_ip : ℕ

pub record Network : Type 0 where
  pub header : List ℕ → Header
  pub arp_header : List ℕ → ArpHeader
  -- the constructors of `l0::MEP` and `l1::MEP`, and `sourceIDToNum`: `none` when they throw
  pub l0_mep : List ℕ → ℕ → Option Mep
  pub l1_mep : List ℕ → ℕ → Option Mep
  pub l0_mep_of_block : Block → ℕ → Option Mep
  pub source_id_to_num : ℕ → Option ℕ
  pub l1_source_id_to_num : ℕ → Option ℕ
  pub source_id_l0tp : ℕ
  pub source_id_l1 : ℕ
  pub source_id_l2 : ℕ
  pub source_id_nstd : ℕ
  pub is_l1_active : Bool
  pub is_nstd_active : Bool
  pub l1_data_packet_size : ℕ
  pub l2_data_packet_size : ℕ
  -- GenerateARPv4 from the own addresses to the given ones
  pub generate_arp_reply : List ℕ → ℕ → Container
  pub my_ip : ℕ
  pub l0_port : ℕ
  pub cream_port : ℕ
  pub dump_bad_packets : Bool
  pub number_of_l0_sources : ℕ
  pub number_of_l1_sources : ℕ
