-- ===== src/Frame.antt =====
-- Network frames: the `DataContainer` and `UDP_HDR` that na62-farm-lib declares, as far as
-- socket/FragmentStore.h and socket/HandleFrameTask.cpp read them, and the sizes of the headers.
use na62_farm.Base.{ℕ, ◌+◌, ◌-◌, Bool, List}
use na62_farm.Base.Words.{u64}

-- A heap buffer and the number of its bytes that count. An empty container (`data == nullptr`) is
-- no value of this type: functions that may return one return an `Option` or a type of their own.
pub record Container : Type 0 where
  pub data_bytes : List ℕ
  pub length : ℕ
  pub owned : Bool

-- What the accessors of a `UDP_HDR` return, in host byte order but for `ether_type`, which the source
-- compares as it stands. `is_fragment`, `more_fragments`
-- and `offset` are the library's methods `isFragment`, `isMoreFragments` and
-- `getFragmentOffsetInBytes`. How the bytes of a frame encode it is a parameter, `header`.
pub record Header : Type 0 where
  pub ether_type : ℕ
  pub protocol : ℕ
  pub tot_len : ℕ
  pub id : ℕ
  pub saddr : ℕ
  pub daddr : ℕ
  pub is_fragment : Bool
  pub more_fragments : Bool
  pub offset : ℕ
  pub dest_port : ℕ
  pub udp_len : ℕ

-- sizeof(ether_header), sizeof(iphdr), sizeof(udphdr) and sizeof(UDP_HDR)
abbrev pub ether_header_size : ℕ
ether_header_size = 14

abbrev pub iphdr_size : ℕ
iphdr_size = 20

abbrev pub udphdr_size : ℕ
udphdr_size = 8

abbrev pub udp_hdr_size : ℕ
udp_hdr_size = 42

-- `ntohs(ip.tot_len) - sizeof(iphdr)`, a `size_t`
abbrev pub ip_payload_size : Header → ℕ
ip_payload_size h = u64 (h.tot_len + 18446744073709551616 - iphdr_size)
