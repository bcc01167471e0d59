-- ===== src/FrameTasks/Process.antt =====
-- socket/HandleFrameTask.cpp: `checkFrame`, `processFrame` and `execute`.
use na62_farm.Base.{
  ℕ, zero, suc, ◌+◌, ◌-◌, Bool, true, false, not, ◌||◌, Option, none, some, List, [], ◌∷◌, ltb,
  ◌==◌, if◌then◌else◌, drop,
}
use na62_farm.Base.Words.{u64}
use na62_farm.Frame.{Container, Header, ether_header_size, iphdr_size, udphdr_size, udp_hdr_size}
use na62_farm.Fragments.Reassembly.{Added, waiting, assembled, overrun}
use na62_farm.Fragments.Slots.{Store}
use na62_farm.Fragments.Add.{add_fragment}
use na62_farm.EventBuilding.Library.{Library, Config}
use na62_farm.EventBuilding.State.{M, skip, ◌>>◌}
use na62_farm.EventBuilding.L1Builder
use na62_farm.EventBuilding.L2Builder
use na62_farm.FrameTasks.Network.{Mep, Block, ArpHeader, Network}
use na62_farm.FrameTasks.Blocks.{l1_block, l2_block, nstd_block}
use na62_farm.FrameTasks.State.{
  Farm, Outcome, Action, finish, and_then, with_value, choose, modify, on_builders, count_mep,
}

unfoldable pub check_frame : Header → ℕ → Bool
check_frame h length =
    if h.is_fragment
    then true
    else if ltb length (h.tot_len + ether_header_size)
    then false
    else not (ltb length (h.udp_len + ether_header_size + iphdr_size))

-- `ntohs(hdr->udp.len) - sizeof(udphdr)`, a `size_t`
abbrev pub udp_data_length : Header → ℕ
udp_data_length h = u64 (h.udp_len + 18446744073709551616 - udphdr_size)

-- `for (uint i = 0; i != n; i++)`, as the calls for 0, 1, …, n - 1
unfoldable pub each : (ℕ → M Unit) → ℕ → M Unit
each m zero = skip
each m (suc n) = each m n >> m n

module _ (net : Network) where
  unfoldable pub free_container : Container → Farm → Farm
  free_container c s = record s {
    freed = c ∷ s.freed;
    dumped = if net.dump_bad_packets then c ∷ s.dumped else s.dumped;
  }

  abbrev pub discard : Container → Action
  discard c s = (Outcome.finished, free_container c s)

  unfoldable pub process_arp_request : ArpHeader → Farm → Farm
  process_arp_request arp s =
      if arp.target_ip == net.my_ip
      then record s { sent = net.generate_arp_reply arp.source_hardware arp.source_ip ∷ s.sent }
      else s

module _ (net : Network) (lib : Library) (config : Config) (burst_id : ℕ) where
  -- every fragment of an L0 MEP, up to the count
  abbrev pub build_fragments : Mep → ℕ → Action
  build_fragments mep n =
      on_builders (each (λ i. L1Builder.build_event lib config (mep.fragment i) burst_id) n)

  -- one of the three parts of `processFrame` that make up a block: the length passed to the MEP
  -- is a parameter, and `factor` is the count of the events.
  unfoldable pub invent : Block → Action
  invent block = with_value (net.l0_mep_of_block block block.mep_length) λ mep.
      with_value (net.source_id_to_num mep.source_id) λ n.
        and_then
          (modify (λ s. record s { l0_received = count_mep n block.allocated s.l0_received }))
          (build_fragments mep block.event_count)

  unfoldable pub invent_blocks : Mep → Action
  invent_blocks mep = and_then (choose net.is_l1_active (invent (l1_block net mep)) finish) (
      and_then (choose config.is_l2_active (invent (l2_block net mep)) finish)
        (choose net.is_nstd_active (invent (nstd_block net mep)) finish))

  unfoldable pub process_l0 : Container → Header → Action
  process_l0 c h =
      with_value (net.l0_mep (drop udp_hdr_size c.data_bytes) (udp_data_length h)) λ mep.
        with_value (net.source_id_to_num mep.source_id) λ n.
          and_then (modify (λ s. record s { l0_received = count_mep n c.length s.l0_received })) (
            and_then (choose (mep.source_id == net.source_id_l0tp) (invent_blocks mep) finish)
              (build_fragments mep mep.number_of_fragments))

  unfoldable pub process_cream : Container → Header → Action
  process_cream c h = choose (udp_data_length h == 0) (discard net c) (
      with_value (net.l1_mep (drop udp_hdr_size c.data_bytes) (udp_data_length h)) λ mep.
        with_value (net.l1_source_id_to_num mep.source_id) λ n.
          and_then (modify (λ s. record s { l1_received = count_mep n c.length s.l1_received })) (
            on_builders (
              each (λ i. L2Builder.build_event lib config (mep.fragment i))
                mep.number_of_fragments)))

  -- the part of `processFrame` that looks at the port, for a whole datagram
  unfoldable pub process_datagram : Container → Action
  process_datagram c =
      let h = net.header c.data_bytes in
      choose (h.dest_port == net.l0_port) (process_l0 c h)
        (choose (h.dest_port == net.cream_port) (process_cream c h) (discard net c))

  -- a `catch` of `processFrame` frees the container that the variable holds.
  abbrev pub catching : Container → Outcome × Farm → Farm
  catching c (Outcome.finished, s) = s
  catching c (Outcome.thrown, s) = free_container net c s

  -- what follows `addFragment`; `none` is a copy outside of a buffer
  abbrev pub after_fragment : Added × Store → Farm → Option Farm
  after_fragment (waiting, store) s = some (record s { store = store })
  after_fragment (overrun, store) s = none
  after_fragment (assembled c, store) s =
      some (catching c (process_datagram c (record s { store = store })))

  unfoldable pub process_frame : Container → Farm → Option Farm
  process_frame c s =
      let h = net.header c.data_bytes in
      if not (h.ether_type == 0x8) || not (h.protocol == 17)
      then (if h.ether_type == 0x608
          then some (process_arp_request net (net.arp_header c.data_bytes) s)
          else some (free_container net c s))
      else if not (check_frame h c.length)
      then some (free_container net c s)
      else if not (net.my_ip == h.daddr)
      then some (free_container net c s)
      else if h.is_fragment
      then after_fragment (add_fragment net.header c s.store) s
      else some (catching c (process_datagram c s))

  -- what follows a frame that was handled without a fault
  abbrev pub unless_fault : Option Farm → (Farm → Option Farm) → Option Farm
  unless_fault none n = none
  unless_fault (some s) n = n s

  -- `execute`: each frame with what `flushBurst` answers before it.
  unfoldable pub execute : List (Container × Bool) → Farm → Option Farm
  execute [] s = some s
  execute ((c, flush) ∷ l) s =
      unless_fault (if flush then some (record s { freed = c ∷ s.freed }) else process_frame c s)
        (λ s'. execute l s')
