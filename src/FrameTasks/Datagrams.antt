-- ===== src/FrameTasks/Datagrams.antt =====
-- socket/HandleFrameTask.cpp with socket/FragmentStore.h: a task with the fragments of a datagram.
use mathlib.Core.List.{Permᴰ}
use mathlib.Core.List.Permᴰ
use na62_farm.Base.{
  ℕ, ◌+◌, ◌≤◌, ◌≡◌, ◌∙◌, refl, ap, Bool, true, false, some, List, [], ◌∷◌, All, All-perm, ◌==◌,
  arith,
}
use na62_farm.Frame.{Container}
use na62_farm.Fragments.Slots.{slot_of, fragments_at}
use na62_farm.Fragments.Reassembly.{Added, waiting, assembled}
use na62_farm.Fragments.Add.{add_fragment, frag_id_of}
use na62_farm.Fragments.Datagram.{Chain, total, whole}
use na62_farm.Fragments.RoundTrip.{add_all, only_last, reassembly}
use na62_farm.EventBuilding.Library.{Library, Config}
use na62_farm.FrameTasks.Network.{Network}
use na62_farm.FrameTasks.State.{Farm}
use na62_farm.FrameTasks.Process.{
  check_frame, process_datagram, process_frame, after_fragment, catching, unless_fault, execute,
}

-- A fragment of a UDP datagram for this node.
pub record IsOurs (net : Network) (c : Container) : Type 0 where
  pub is_ip : (net.header c.data_bytes).ether_type ≡ 8
  pub is_udp : (net.header c.data_bytes).protocol ≡ 17
  pub addressed : (net.header c.data_bytes).daddr ≡ net.my_ip
  pub is_part : (net.header c.data_bytes).is_fragment ≡ true

-- The frames, with no flush before any of them.
abbrev pub unflushed : List Container → List (Container × Bool)
unflushed [] = []
unflushed (c ∷ l) = (c, false) ∷ unflushed l

abbrev first_of : Added → List Added → Added
first_of r [] = r
first_of r (x ∷ l) = x

abbrev rest_of : List Added → List Added
rest_of [] = []
rest_of (x ∷ l) = l

module _ (net : Network) (lib : Library) (config : Config) (burst_id : ℕ) where
  process_frame-part :
      (c : Container) (s : Farm)
      → IsOurs net c
      → process_frame net lib config burst_id c s
        ≡ after_fragment net lib config burst_id (add_fragment net.header c s.store) s
  unfolding process_frame check_frame
  process_frame-part c s ours =
      let h = net.header c.data_bytes in
      let a : (net.my_ip == h.daddr) ≡ true = ground (arith, ours.addressed) in
      let i : (h.ether_type == 8) ≡ true = ground (arith, ours.is_ip) in
      let u : (h.protocol == 17) ≡ true = ground (arith, ours.is_udp) in
      rw (i, process_frame) (rw u (rw a (rw ours.is_part refl)))

  -- What the farm is once the last fragment has completed the datagram.
  abbrev pub completed : Container → List Container → Farm → Farm
  completed d l s = catching net lib config burst_id d (
      process_datagram net lib config burst_id d
        (record s { store = (add_all net.header l s.store).1 }))

  execute-add_all :
      (c : Container) (l : List Container) (d : Container) (s : Farm)
      → All (IsOurs net) (c ∷ l)
      → (add_all net.header (c ∷ l) s.store).0 ≡ only_last (c ∷ l) (assembled d)
      → execute net lib config burst_id (unflushed (c ∷ l)) s ≡ some (completed d (c ∷ l) s)
  unfolding execute add_all
  execute-add_all c [] d s ours e =
      ap (λ o. unless_fault net lib config burst_id o (execute net lib config burst_id []))
        (process_frame-part c s ours.0
          ∙ ap
              (λ r.
                after_fragment net lib config burst_id (r, (add_fragment net.header c s.store).1) s)
              (ap (first_of waiting) e))
  execute-add_all c (c' ∷ l) d s ours e =
      ap
        (λ o.
          unless_fault net lib config burst_id o
            (execute net lib config burst_id (unflushed (c' ∷ l))))
        (process_frame-part c s ours.0
          ∙ ap
              (λ r.
                after_fragment net lib config burst_id (r, (add_fragment net.header c s.store).1) s)
              (ap (first_of waiting) e))
      ∙ execute-add_all c' l d (record s { store = (add_fragment net.header c s.store).1 }) ours.1
          (ap rest_of e)

-- Split a UDP datagram for this node, of at most 65515 bytes of payload, into a chain of frames without
-- padding under one key, and let a task hold the frames in any order, while the store has
-- nothing under the key and no burst is flushed. Then the task does to the events and the counters
-- exactly what `processFrame` does to the datagram received as one frame, from the port on.
pub execute-reassembles :
    (net : Network) (lib : Library) (config : Config) (burst_id k : ℕ) (pieces : List Container)
    (c : Container) (l : List Container) (s : Farm)
    → Chain net.header 0 pieces
    → All (λ p. frag_id_of net.header p ≡ k) pieces
    → total net.header pieces ≤ 65515
    → All (IsOurs net) pieces
    → Permᴰ (c ∷ l) pieces
    → fragments_at (slot_of k) k s.store ≡ []
    → execute net lib config burst_id (unflushed (c ∷ l)) s
      ≡ some (
          completed net lib config burst_id
            (record {
              data_bytes = whole net.header pieces;
              length = total net.header pieces + 34;
              owned = true;
            })
            (c ∷ l)
            s)
execute-reassembles net lib config burst_id k pieces c l s chain ids small ours p empty =
    execute-add_all net lib config burst_id c l _ s (All-perm (IsOurs net) (Permᴰ.symm p) ours)
      (reassembly net.header k pieces (c ∷ l) s.store chain ids small p empty).0
