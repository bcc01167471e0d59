-- ===== src/Fragments/Isolation.antt =====
-- socket/FragmentStore.h: what `addFragment` does to the other datagrams that are in flight.
use na62_farm.Base.{
  ℕ, ◌≡◌, ◌≢◌, refl, ◌∙◌, Bool, true, false, ◌&&◌, Option, none, some, List, ◌==◌, arith, ==_false,
}
use na62_farm.Frame.{Container, Header}
use na62_farm.Fragments.Slots.{
  Store, slot_of, fragments_at, set_fragments, clean_all, fragments_at-set_fragments,
  fragments_at-clean_all,
}
use na62_farm.Fragments.Reassembly.{reassemble_frame}
use na62_farm.Fragments.Add.{Scan, frag_id_of, complete, check_complete, settle, add_fragment}

and-false : (a : Bool) {b : Bool} → b ≡ false → (a && b) ≡ false
and-false true e = e
and-false false e = refl

module _ (header : List ℕ → Header) (n j m k : ℕ) (apart : ((n == m) && (j == k)) ≡ false) where
  elsewhere-set :
      (l : List Container) (s : Store)
      → fragments_at m k (set_fragments n j l s) ≡ fragments_at m k s
  elsewhere-set l s = rw (fragments_at-set_fragments n j s m k l, apart)

  elsewhere-clean : (s : Store) → fragments_at m k (clean_all n j s) ≡ fragments_at m k s
  elsewhere-clean s = rw (fragments_at-clean_all n j s m k, apart)

  elsewhere-complete : (s : Store) → fragments_at m k (complete header n j s).1 ≡ fragments_at m k s
  unfolding complete reassemble_frame fragments_at
  elsewhere-complete s = elsewhere-clean _ ∙ elsewhere-set _ _

  elsewhere-check :
      (o : Option Container) (sum : ℕ) (s : Store)
      → fragments_at m k (check_complete header n j o sum s).1 ≡ fragments_at m k s
  unfolding check_complete
  elsewhere-check none sum s = refl
  elsewhere-check (some l) sum s = ground (arith, elsewhere-complete s)

  elsewhere-settle :
      (t : Scan) (s : Store) → fragments_at m k (settle header n j t s).1 ≡ fragments_at m k s
  unfolding settle
  elsewhere-settle t s = ground (arith, elsewhere-clean s, elsewhere-check t.last t.sum s)

-- A fragment changes nothing that is stored under the key of another datagram.
pub add_fragment-elsewhere :
    (header : List ℕ → Header) (f : Container) (s : Store) (k : ℕ)
    → frag_id_of header f ≢ k
    → fragments_at (slot_of k) k (add_fragment header f s).1 ≡ fragments_at (slot_of k) k s
unfolding add_fragment fragments_at
add_fragment-elsewhere header f s k ne =
    let frag_id = frag_id_of header f in
    let apart = and-false (slot_of frag_id == slot_of k) (==_false frag_id k ne) in
    elsewhere-settle header (slot_of frag_id) frag_id (slot_of k) k apart _ _
    ∙ elsewhere-set header (slot_of frag_id) frag_id (slot_of k) k apart _ _
