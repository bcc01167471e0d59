-- ===== src/FrameTasks/Blocks.antt =====
-- The blocks that `processFrame` makes up for L1, L2 and NSTD out of a MEP of the L0TP.
use Prim.Native.Nat.{bit_or}
use na62_farm.Base.{ℕ, zero, suc, ◌+◌, ◌*◌, ◌/◌, ◌^◌, List, [], ◌∷◌}
use na62_farm.Base.Words.{u16, u32}
use na62_farm.EventBuilding.Library.{Fragment}
use na62_farm.Frame.{udp_hdr_size}
use na62_farm.FrameTasks.Network.{Mep, Block, Network}

-- `*(uint16_t*) p = (*(uint16_t*) p & 0xffff0000) | length`, on the first word of an event
unfoldable pub l1_event_word : ℕ → ℕ → ℕ
l1_event_word length word = word / 2 ^ 16 * 2 ^ 16 + length

-- `*(uint*) p = (*(uint*) p & 0xffff0000) | length`
unfoldable pub event_word : ℕ → ℕ → ℕ
event_word length word = bit_or length (word / 2 ^ 16 * 2 ^ 16)

-- The loop over the fragments of the MEP: so many more from fragment `i` on, with the position in the
-- buffer of the pointer that moves by `stride` after each event. An event is its position and the two
-- words written there.
unfoldable pub event_headers : (ℕ → ℕ) → (ℕ → Fragment) → ℕ → ℕ → ℕ → ℕ → List (ℕ × ℕ × ℕ)
event_headers word fragment stride zero i position = []
event_headers word fragment stride (suc n) i position =
    (position, word (fragment i).first_words.0, (fragment i).first_words.1)
    ∷ event_headers word fragment stride n (i + 1) (position + stride)

unfoldable pub l1_block : Network → Mep → Block
l1_block net mep =
    let factor = u16 mep.number_of_fragments in
    let fragment_length = u16 (net.l1_data_packet_size + 8) in
    let block_length = u32 (factor * fragment_length + 8) in
    record {
      allocated = block_length + udp_hdr_size;
      first_event_num = mep.first_event_num;
      source_id = net.source_id_l1;
      mep_length = block_length;
      event_count = factor;
      events =
          event_headers (l1_event_word fragment_length) mep.fragment fragment_length factor 0
            (udp_hdr_size + 8);
    }

-- the block for L2 or NSTD with events of the given length
unfoldable pub block_of : ℕ → ℕ → Mep → Block
block_of source_id event_length mep =
    let factor = u16 mep.number_of_fragments in
    let block_length = u32 (factor * event_length + 8) in
    record {
      allocated = block_length + udp_hdr_size;
      first_event_num = mep.first_event_num;
      source_id = source_id;
      mep_length = block_length;
      event_count = factor;
      events =
          event_headers (event_word event_length) mep.fragment event_length factor 0
            (udp_hdr_size + 8);
    }

abbrev pub l2_block : Network → Mep → Block
l2_block net = block_of net.source_id_l2 (u32 (net.l2_data_packet_size + 8))

abbrev pub nstd_block : Network → Mep → Block
nstd_block net = block_of net.source_id_nstd 12
