-- ===== src/Fragments/Invariant.antt =====
-- socket/FragmentStore.h: what holds of the store between two calls of `addFragment`.
use na62_farm.Base.{
  ℕ, ◌+◌, ◌≤◌, ◌≡◌, refl, ◌⊎◌, subst, false, inl, inr, Option, none, some, List, sum_by, [], ◌∷◌,
  ◌++◌, ltb, ◌==◌, if◌then◌else◌, arith, Bool-cases,
}
use na62_farm.Base.Maps.{get}
use native.Mathlib.Decide.{ℕ_discrete}
use na62_farm.Frame.{Container, Header}
use na62_farm.Fragments.Slots.{
  Store, slot_of, fragments_at, fragments_at-set_self, fragments_at-clean_self, empty_store,
}
use na62_farm.Fragments.Reassembly.{hdr}
use na62_farm.Fragments.Isolation.{add_fragment-elsewhere}
use na62_farm.Fragments.Add.{
  Scan, frag_id_of, scan_from, scan_one, scan, complete, check_complete, settle, add_fragment,
  expected_payload_sum,
}

-- How many of the fragments are final ones.
abbrev pub count_last : (List ℕ → Header) → List Container → ℕ
count_last header = sum_by (λ f. if (hdr header f).more_fragments then 0 else 1)

-- No datagram in the store has two final fragments.
abbrev pub IsSettled : (List ℕ → Header) → Store → Type 0
IsSettled header s = (k : ℕ) → count_last header (fragments_at (slot_of k) k s) ≤ 1

count_last-append :
    (header : List ℕ → Header) (xs ys : List Container)
    → count_last header (xs ++ ys) ≡ count_last header xs + count_last header ys
count_last-append header [] ys = omega arith
count_last-append header (x ∷ xs) ys = omega (arith, count_last-append header xs ys)

module _ (header : List ℕ → Header) where
  -- The counter of the loop counts the final fragments, while the count fits eight bits.
  pub counter-scan_from :
      (t : Scan) (l : List Container)
      → t.counter + count_last header l ≤ 255
      → (scan_from header t l).counter ≡ t.counter + count_last header l
  unfolding scan_from
  counter-scan_from t [] h = omega arith
  counter-scan_from t (f ∷ l) h = ground (arith, counter-scan_from (scan_one header f t) l)

  module _ (n j : ℕ) where
    pub complete-empties : (s : Store) → fragments_at n j (complete header n j s).1 ≡ []
    unfolding complete
    complete-empties s = fragments_at-clean_self n j _

    -- After a call the key has no fragments left, or those that it had.
    abbrev KeptOrGone : Store → Store → Type 0
    KeptOrGone s s' = (fragments_at n j s' ≡ []) ⊎ (fragments_at n j s' ≡ fragments_at n j s)

    check_complete-KeptOrGone :
        (o : Option Container) (sum : ℕ) (s : Store)
        → KeptOrGone s (check_complete header n j o sum s).1
    unfolding check_complete
    check_complete-KeptOrGone none sum s = inr refl
    check_complete-KeptOrGone (some l) sum s =
        elim (Bool-cases (expected_payload_sum (hdr header l) == sum)) [
          | inl e ↦ rw (e, check_complete) (inl (complete-empties s))
          | inr e ↦ rw (e, check_complete) (inr refl)
        ]

    settle-one_last :
        (t : Scan) (s : Store)
        → (ltb 1 t.counter ≡ false → count_last header (fragments_at n j s) ≤ 1)
        → count_last header (fragments_at n j (settle header n j t s).1) ≤ 1
    unfolding settle
    settle-one_last t s h = elim (Bool-cases (ltb 1 t.counter)) [
      | inl e ↦ rw (e, settle) (rw fragments_at-clean_self (omega arith))
      | inr e ↦ rw (e, settle) (ground (arith, check_complete-KeptOrGone t.last t.sum s, h e))
    ]

module _ (header : List ℕ → Header) (f : Container) (s : Store) (h : IsSettled header s) where
  pub one_more :
      count_last header
        (fragments_at (slot_of (frag_id_of header f)) (frag_id_of header f) s ++ f ∷ [])
      ≤ 2
  one_more =
      let k = frag_id_of header f in
      let old = fragments_at (slot_of k) k s in
      ground (arith, count_last-append header old (f ∷ []), h k)

  add_fragment-one_last :
      let k = frag_id_of header f in
      count_last header (fragments_at (slot_of k) k (add_fragment header f s).1) ≤ 1
  unfolding add_fragment
  add_fragment-one_last =
      let k = frag_id_of header f in
      let fragments = fragments_at (slot_of k) k s ++ f ∷ [] in
      settle-one_last header (slot_of k) k (scan header fragments) _ λ e. rw fragments_at-set_self (
        ground (
          arith,
          counter-scan_from header (record { sum = 0; last = none; counter = 0 }) fragments,
          one_more,
        ))

-- The invariant of the store is kept by every fragment that is filed, whatever its header says:
-- at most one final fragment is stored for each datagram.
pub add_fragment-IsSettled :
    (header : List ℕ → Header) (f : Container) (s : Store)
    → IsSettled header s
    → IsSettled header (add_fragment header f s).1
add_fragment-IsSettled header f s h k = elim (ℕ_discrete (frag_id_of header f) k) [
  | yes e ↦
      subst (λ j. count_last header (fragments_at (slot_of j) j (add_fragment header f s).1) ≤ 1) e
        (add_fragment-one_last header f s h)
  | no ne ↦ rw (add_fragment-elsewhere header f s k ne) (h k)
]

pub empty_store-IsSettled : (header : List ℕ → Header) → IsSettled header empty_store
unfolding empty_store fragments_at get
empty_store-IsSettled header k = omega arith
