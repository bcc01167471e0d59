-- ===== src/Fragments/Ownership.antt =====
-- socket/FragmentStore.h: who owns the buffers of the fragments.
use mathlib.Core.List.{append-nil, append_assoc}
use mathlib.Core.List.Perm
use na62_farm.Base.{
  ℕ, ◌≡◌, sym, ◌∙◌, subst, inl, inr, Option, none, some, List, [], ◌∷◌, ◌++◌, Perm, ltb, ◌==◌,
  Bool-cases,
}
use na62_farm.Frame.{Container, Header}
use na62_farm.Fragments.Slots.{
  Store, slot_of, fragments_at, set_fragments, clean_all, fragments_at-set_self,
  fragments_at-clean_self, freed-set_fragments, freed-clean_all,
}
use na62_farm.Fragments.Reassembly.{hdr, reassemble_frame}
use na62_farm.Fragments.Sort.{sort_by_offset-perm}
use na62_farm.Fragments.Add.{
  Scan, frag_id_of, complete, check_complete, settle, add_fragment, expected_payload_sum,
}

-- The fragments under a key that are stored or have been freed.
abbrev pub owned_at : ℕ → ℕ → Store → List Container
owned_at n j s = s.freed ++ fragments_at n j s

module _ (header : List ℕ → Header) (n j : ℕ) where
  clean_all-owned : (s : Store) → owned_at n j (clean_all n j s) ≡ owned_at n j s
  clean_all-owned s = rw (fragments_at-clean_self n j s, freed-clean_all n j s) (append-nil _)

  set_fragments-owned :
      (l : List Container) (s : Store) → owned_at n j (set_fragments n j l s) ≡ s.freed ++ l
  set_fragments-owned l s = rw (fragments_at-set_self n j s l, freed-set_fragments n j s l)

  complete-owned : (s : Store) → Perm (owned_at n j (complete header n j s).1) (owned_at n j s)
  unfolding complete reassemble_frame fragments_at
  complete-owned s =
      subst (λ o. Perm o (owned_at n j s)) (sym (clean_all-owned _ ∙ set_fragments-owned _ _))
        (Perm.append_left s.freed (sort_by_offset-perm header (fragments_at n j s)))

  check_complete-owned :
      (o : Option Container) (sum : ℕ) (s : Store)
      → Perm (owned_at n j (check_complete header n j o sum s).1) (owned_at n j s)
  unfolding check_complete
  check_complete-owned none sum s = Perm.rfl
  check_complete-owned (some l) sum s =
      elim (Bool-cases (expected_payload_sum (hdr header l) == sum)) [
        | inl e ↦ rw (e, check_complete) (complete-owned s)
        | inr e ↦ rw (e, check_complete) Perm.rfl
      ]

  settle-owned :
      (t : Scan) (s : Store) → Perm (owned_at n j (settle header n j t s).1) (owned_at n j s)
  unfolding settle
  settle-owned t s = elim (Bool-cases (ltb 1 t.counter)) [
    | inl e ↦ rw (e, settle) (rw clean_all-owned Perm.rfl)
    | inr e ↦ rw (e, settle) (check_complete-owned t.last t.sum s)
  ]

-- Whatever `addFragment` returns, the fragments under the key of the new one that are stored or
-- freed afterwards are those from before and the new one, each exactly once: no buffer is lost
-- and none is freed twice.
pub add_fragment-owned :
    (header : List ℕ → Header) (f : Container) (s : Store)
    → let k = frag_id_of header f in
      Perm (owned_at (slot_of k) k (add_fragment header f s).1) (owned_at (slot_of k) k s ++ f ∷ [])
unfolding add_fragment fragments_at
add_fragment-owned header f s =
    let k = frag_id_of header f in
    Perm.trans (settle-owned header (slot_of k) k _ _) (
      rw (append_assoc s.freed (fragments_at (slot_of k) k s) (f ∷ []))
        (rw (set_fragments-owned header) Perm.rfl))
