-- ===== src/Fragments/Reassembly.antt =====
-- socket/FragmentStore.h: `reassembleFrame`, which sorts the fragments of a datagram by offset and
-- copies their payloads behind the first of them.
use na62_farm.Base.{
  ℕ, ◌+◌, true, ◌&&◌, List, [], ◌∷◌, ◌++◌, ltb, leb, ◌==◌, if◌then◌else◌, length, take, drop,
}
use na62_farm.Base.Words.{u64}
use na62_farm.Frame.{Container, Header, ether_header_size, iphdr_size, ip_payload_size}
use na62_farm.Fragments.Slots.{Store, fragments_at, set_fragments}

-- What `addFragment` returns: the empty container, a frame, or no return at all, because a copy
-- has left its buffers.
pub data Added : Type 0 where
  waiting : Added
  assembled : Container → Added
  overrun : Added

-- The outcome of the copies of `reassembleFrame`: the bytes and the final offset, a gap between
-- the fragments, or a copy past the end of a buffer.
pub data Copied : Type 0 where
  done : List ℕ → ℕ → Copied
  gap : Copied
  past_end : Copied

abbrev pub to_added : Copied → Added
to_added (done bytes n) = assembled (record { data_bytes = bytes; length = n; owned = true })
to_added gap = waiting
to_added past_end = overrun

unfoldable pub last_of : Container → List Container → Container
last_of f [] = f
last_of f (g ∷ l) = last_of g l

module _ (header : List ℕ → Header) where
  abbrev pub hdr : Container → Header
  hdr c = header c.data_bytes

  -- `std::sort` by the fragment offset
  unfoldable pub insert_by_offset : Container → List Container → List Container
  insert_by_offset f [] = f ∷ []
  insert_by_offset f (g ∷ l) =
      if ltb (hdr f).offset (hdr g).offset then f ∷ g ∷ l else g ∷ insert_by_offset f l

  unfoldable pub sort_by_offset : List Container → List Container
  sort_by_offset [] = []
  sort_by_offset (f ∷ l) = insert_by_offset f (sort_by_offset l)

  -- The rounds of the copy loop after the first: `buffer` is what is written so far, and
  -- `total_bytes` the size of the allocation.
  unfoldable pub copy_rest :
      (total_bytes : ℕ) (buffer : List ℕ) (current_offset : ℕ) → List Container → Copied
  copy_rest total_bytes buffer current_offset [] = done buffer current_offset
  copy_rest total_bytes buffer current_offset (f ∷ l) =
      let size = ip_payload_size (hdr f) in
      let rest =
        copy_rest total_bytes
          (buffer ++ take size (drop (ether_header_size + iphdr_size) f.data_bytes))
          (u64 (current_offset + size)) l in
      if (hdr f).offset + ether_header_size + iphdr_size == current_offset
      then (if leb (ether_header_size + iphdr_size + size) (length f.data_bytes)
            && leb (current_offset + size) total_bytes
          then rest
          else past_end)
      else gap

  -- The first frame is copied entirely, with its headers and its padding.
  unfoldable pub copy_first : ℕ → Container → List Container → Copied
  copy_first total_bytes f l =
      if (hdr f).offset + ether_header_size + iphdr_size == ether_header_size + iphdr_size
      then (if leb f.length (length f.data_bytes) && leb f.length total_bytes
          then copy_rest total_bytes (take f.length f.data_bytes) f.length l
          else past_end)
      else gap

  unfoldable pub copy_sorted : List Container → Copied
  copy_sorted [] = gap
  copy_sorted (f ∷ l) =
      let last = hdr (last_of f l) in
      copy_first (ether_header_size + last.offset + last.tot_len) f l

  unfoldable pub reassemble_frame : ℕ → ℕ → Store → Added × Store
  reassemble_frame store_num frag_id s =
      let fragments = sort_by_offset (fragments_at store_num frag_id s) in
      (to_added (copy_sorted fragments), set_fragments store_num frag_id fragments s)
