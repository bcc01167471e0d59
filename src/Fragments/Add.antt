-- ===== src/Fragments/Add.antt =====
-- socket/FragmentStore.h: `addFragment`, as one function for each part of its body.
use na62_farm.Base.{ℕ, ◌+◌, ◌%◌, Option, none, some, List, [], ◌∷◌, ◌++◌, ltb, ◌==◌, if◌then◌else◌}
use na62_farm.Base.Words.{u8, u32}
use na62_farm.Frame.{Container, Header, ip_payload_size}
use na62_farm.Fragments.Slots.{
  Store, number_of_fragment_stores, generate_fragment_id, fragments_at, set_fragments, clean_all,
}
use na62_farm.Fragments.Reassembly.{Added, waiting, hdr, reassemble_frame}

-- The loop of `addFragment` over the fragments received: `sumOfIPPayloadBytes`, `lastFragment`
-- and `last_fragment_counter`.
pub record Scan : Type 0 where
  pub sum : ℕ
  pub last : Option Container
  pub counter : ℕ

abbrev pub expected_payload_sum : Header → ℕ
expected_payload_sum h = u32 (h.offset + ip_payload_size h)

module _ (header : List ℕ → Header) where
  abbrev pub scan_one : Container → Scan → Scan
  scan_one f t = record {
    sum = u32 (t.sum + ip_payload_size (hdr header f));
    last = if (hdr header f).more_fragments then t.last else some f;
    counter = if (hdr header f).more_fragments then t.counter else u8 (t.counter + 1);
  }

  unfoldable pub scan_from : Scan → List Container → Scan
  scan_from t [] = t
  scan_from t (f ∷ l) = scan_from (scan_one f t) l

  abbrev pub scan : List Container → Scan
  scan = scan_from (record { sum = 0; last = none; counter = 0 })

  unfoldable pub complete : ℕ → ℕ → Store → Added × Store
  complete store_num frag_id s =
      let (r, s') =
        reassemble_frame header store_num frag_id
          (record s { reassembled_frames = u32 (s.reassembled_frames + 1) }) in
      (r, clean_all store_num frag_id s')

  unfoldable pub check_complete : ℕ → ℕ → Option Container → ℕ → Store → Added × Store
  check_complete store_num frag_id none sum s = (waiting, s)
  check_complete store_num frag_id (some last) sum s =
      if expected_payload_sum (hdr header last) == sum
      then complete store_num frag_id s
      else (waiting, s)

  unfoldable pub settle : ℕ → ℕ → Scan → Store → Added × Store
  settle store_num frag_id t s =
      if ltb 1 t.counter
      then (waiting, clean_all store_num frag_id s)
      else check_complete store_num frag_id t.last t.sum s

  abbrev pub frag_id_of : Container → ℕ
  frag_id_of f = generate_fragment_id (hdr header f).saddr (hdr header f).id

  unfoldable pub add_fragment : Container → Store → Added × Store
  add_fragment f s =
      let frag_id = frag_id_of f in
      let store_num = frag_id % number_of_fragment_stores in
      let fragments = fragments_at store_num frag_id s ++ f ∷ [] in
      settle store_num frag_id (scan fragments) (
        set_fragments store_num frag_id fragments
          (record s { fragments_received = u32 (s.fragments_received + 1) }))
