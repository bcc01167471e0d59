-- ===== src/Fragments/View.antt =====
-- socket/FragmentStore.h: the store as it looks from outside, one list of fragments for each datagram,
-- and what `addFragment` does to it.
use na62_farm.Base.{
  ℕ, ◌+◌, ◌^◌, ◌<◌, Bool, not, List, [], ◌∷◌, ◌++◌, All, keep, sum_by, ◌==◌, if◌then◌else◌,
}
use na62_farm.Frame.{Container, Header, ip_payload_size}
use na62_farm.Fragments.Slots.{Store, slot_of, update, fragments_at}
use na62_farm.Fragments.Reassembly.{Added, waiting, hdr, to_added, sort_by_offset, copy_sorted}
use na62_farm.Fragments.Add.{frag_id_of, add_fragment}

-- The fragments received for each datagram, whatever map they are kept in.
abbrev pub View : Type 0
View = ℕ → List Container

abbrev pub view : Store → View
view s k = fragments_at (slot_of k) k s

module _ (header : List ℕ → Header) where
  abbrev pub payload : Container → ℕ
  payload f = ip_payload_size (hdr header f)

  abbrev pub is_final : Container → Bool
  is_final f = not (hdr header f).more_fragments

  -- What becomes of the fragments of one datagram, given the final ones among them: nothing while
  -- there is none; the frame, once the payloads add up to where the final fragment ends; and two
  -- final fragments give them all up.
  unfoldable pub decide : List Container → List Container → Added × List Container
  decide l [] = (waiting, l)
  decide l (x ∷ []) =
      if (hdr header x).offset + payload x == sum_by payload l
      then (to_added (copy_sorted header (sort_by_offset header l)), [])
      else (waiting, l)
  decide l (x ∷ y ∷ r) = (waiting, [])

  -- `addFragment`, as the caller sees it.
  unfoldable pub receive_fragment : Container → View → Added × View
  receive_fragment f v =
      let k = frag_id_of header f in
      let l = v k ++ f ∷ [] in
      let (result, rest) = decide l (keep is_final l) in (result, update v k rest)

  -- The sums of the payloads fit 32 bits.
  abbrev pub Fits : List Container → Type 0
  Fits l = All (λ x. (hdr header x).offset + payload x < 2 ^ 32) l × (sum_by payload l < 2 ^ 32)

  -- The sums fit along a whole sequence of fragments.
  abbrev pub AllFit : View → List Container → Type 0
  AllFit v [] = Unit
  AllFit v (f ∷ l) = Fits (v (frag_id_of header f) ++ f ∷ []) × AllFit (receive_fragment f v).1 l

  -- The results of a sequence of calls, on the table and on the store, with what is left.
  unfoldable pub receive_fragments : List Container → View → List Added × View
  receive_fragments [] v = ([], v)
  receive_fragments (f ∷ l) v =
      let (result, v') = receive_fragment f v in
      let (results, v'') = receive_fragments l v' in (result ∷ results, v'')

  unfoldable pub add_fragments : List Container → Store → List Added × Store
  add_fragments [] s = ([], s)
  add_fragments (f ∷ l) s =
      let (result, s') = add_fragment header f s in
      let (results, s'') = add_fragments l s' in (result ∷ results, s'')
