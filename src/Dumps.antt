-- ===== src/Dumps.antt =====
-- socket/PcapDump.cpp: the files that bad frames are dumped to, and the dumper of each task processor
-- in socket/TaskProcessor.cpp. The file is the one of libpcap: what `pcap_dump` writes is the header of
-- the packet and as many bytes of it as the header says.
pub mod Names
use na62_farm.Base.{ℕ, zero, suc, ◌+◌, ◌-◌, ◌/◌, ◌%◌, List, [], ◌∷◌, ◌++◌, ltb, take, if◌then◌else◌}
use na62_farm.Base.Words.{u16, u32}
use na62_farm.Base.Decimal.{to_string}
use na62_farm.Frame.{Container}
use na62_farm.Commands.{Text}

-- `std::to_string` of a `short`, as the 16 bits of it
unfoldable pub short_to_string : ℕ → Text
short_to_string n = if ltb n 32768 then to_string n else 45 ∷ to_string (65536 - n)

-- ".pcap"
abbrev pub extension : Text
extension = 46 ∷ 112 ∷ 99 ∷ 97 ∷ 112 ∷ []

-- pathbasefilename + "-" + std::to_string(std::time(0)) + "-" + std::to_string(id) + ".pcap"
unfoldable pub filename : Text → ℕ → ℕ → Text
filename base now id = base ++ 45 ∷ (to_string now ++ 45 ∷ (short_to_string id ++ extension))

-- `pcap_pkthdr` and the bytes behind it
pub record Packet : Type 0 where
  pub time : ℕ
  pub caplen : ℕ
  pub len : ℕ
  pub bytes : List ℕ

pub record PcapDump : Type 0 where
  pub filename : Text
  pub packets : List Packet

-- the constructor
unfoldable pub open_dump : Text → ℕ → ℕ → PcapDump
open_dump base now id = record { filename = filename base now id; packets = [] }

unfoldable pub dump_packet : ℕ → List ℕ → ℕ → PcapDump → PcapDump
dump_packet now packet length d = record d {
  packets =
      d.packets
      ++ record { time = now; caplen = length; len = length; bytes = take length packet } ∷ [];
}

-- "/var/log/dumped-packets/packets"
abbrev pub dump_path : Text
dump_path =
    47 ∷ 118 ∷ 97 ∷ 114 ∷ 47 ∷ 108 ∷ 111 ∷ 103 ∷ 47 ∷ 100 ∷ 117 ∷ 109 ∷ 112 ∷ 101 ∷ 100 ∷ 45 ∷ 112
    ∷ 97 ∷ 99 ∷ 107 ∷ 101 ∷ 116 ∷ 115 ∷ 47 ∷ 112 ∷ 97 ∷ 99 ∷ 107 ∷ 101 ∷ 116 ∷ 115 ∷ []

-- `dumper_` of a new `TaskProcessor`: its id, a `uint`, becomes a `short`
unfoldable pub task_processor_dump : ℕ → ℕ → PcapDump
task_processor_dump now task_processor_id = open_dump dump_path now (u16 task_processor_id)

-- `TaskProcessor::dumpPacket`, where the length becomes a `uint`
unfoldable pub dump_container : ℕ → Container → PcapDump → PcapDump
dump_container now c = dump_packet now c.data_bytes (u32 c.length)
