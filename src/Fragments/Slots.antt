-- ===== src/Fragments/Slots.antt =====
-- socket/FragmentStore.h: the static state of `FragmentStore`. The 32 maps are a function of the
-- store number; the mutexes make each call atomic, so a call is a function of the store. `freed`
-- records the fragments whose buffers `cleanAll` has released, in order.
use Prim.Native.Nat.{bit_or}
use na62_farm.Base.{
  ℕ, zero, suc, ◌+◌, ◌*◌, ◌%◌, ◌^◌, ◌≡◌, refl, true, Option, none, some, List, [], ◌++◌, ◌&&◌, ◌==◌,
  if◌then◌else◌, length, arith,
}
use na62_farm.Base.Words.{u32, u64}
use na62_farm.Base.Maps.{get, put, erase, get-put, get-erase}
use na62_farm.Frame.{Container}

abbrev pub number_of_fragment_stores : ℕ
number_of_fragment_stores = 32

pub record Store : Type 0 where
  pub fragments_by_id : ℕ → List (ℕ × List Container)
  pub fragments_received : ℕ
  pub reassembled_frames : ℕ
  pub freed : List Container

unfoldable pub generate_fragment_id : ℕ → ℕ → ℕ
generate_fragment_id src_ip frag_id = bit_or frag_id (u64 (src_ip * 2 ^ 16))

abbrev pub update {ℓ} : {V : Type ℓ} → (ℕ → V) → ℕ → V → ℕ → V
update f n v m = if n == m then v else f m

-- `fragmentsById_[fragmentStoreNum][fragID]`; an id that is not there reads as an empty vector.
abbrev pub or_empty : Option (List Container) → List Container
or_empty none = []
or_empty (some l) = l

unfoldable pub fragments_at : ℕ → ℕ → Store → List Container
fragments_at store_num frag_id s = or_empty (get frag_id (s.fragments_by_id store_num))

unfoldable pub set_fragments : ℕ → ℕ → List Container → Store → Store
set_fragments store_num frag_id l s = record s {
  fragments_by_id =
      update s.fragments_by_id store_num (put frag_id l (s.fragments_by_id store_num));
}

unfoldable pub clean_all : ℕ → ℕ → Store → Store
unfolding fragments_at
clean_all store_num frag_id s = record s {
  fragments_by_id =
      update s.fragments_by_id store_num (erase frag_id (s.fragments_by_id store_num));
  freed = s.freed ++ fragments_at store_num frag_id s;
}

abbrev pub get_number_of_received_fragments : Store → ℕ
get_number_of_received_fragments s = s.fragments_received

abbrev pub get_number_of_reassembled_frames : Store → ℕ
get_number_of_reassembled_frames s = s.reassembled_frames

abbrev pub unfinished_below : ℕ → Store → ℕ
unfinished_below zero s = 0
unfinished_below (suc n) s = u32 (unfinished_below n s + length (s.fragments_by_id n))

unfoldable pub get_number_of_unfinished_frames : Store → ℕ
get_number_of_unfinished_frames s = unfinished_below number_of_fragment_stores s

unfoldable pub empty_store : Store
empty_store = record {
  fragments_by_id = λ _. [];
  fragments_received = 0;
  reassembled_frames = 0;
  freed = [];
}

abbrev pub slot_of : ℕ → ℕ
slot_of frag_id = frag_id % number_of_fragment_stores

module _ (m j : ℕ) (s : Store) (n k : ℕ) where
  pub fragments_at-set_fragments :
      (l : List Container)
      → fragments_at n k (set_fragments m j l s)
        ≡ (if (m == n) && (j == k) then l else fragments_at n k s)
  unfolding fragments_at set_fragments
  fragments_at-set_fragments l = ground (arith, get-put j k l (s.fragments_by_id n))

  pub fragments_at-clean_all :
      fragments_at n k (clean_all m j s) ≡ (if (m == n) && (j == k) then [] else fragments_at n k s)
  unfolding fragments_at clean_all
  fragments_at-clean_all = ground (arith, get-erase j k (s.fragments_by_id n))

module _ (n j : ℕ) (s : Store) where
  self_key : ((n == n) && (j == j)) ≡ true
  self_key = ground arith

  -- What is written under a key is read back.
  pub fragments_at-set_self : (l : List Container) → fragments_at n j (set_fragments n j l s) ≡ l
  fragments_at-set_self l = rw (fragments_at-set_fragments n j s n j l, self_key)

  pub fragments_at-clean_self : fragments_at n j (clean_all n j s) ≡ []
  fragments_at-clean_self = rw (fragments_at-clean_all n j s n j, self_key)

  pub freed-set_fragments : (l : List Container) → (set_fragments n j l s).freed ≡ s.freed
  unfolding set_fragments
  freed-set_fragments l = refl

  pub freed-clean_all : (clean_all n j s).freed ≡ s.freed ++ fragments_at n j s
  unfolding clean_all
  freed-clean_all = refl
