-- ===== src/Fragments/Sort.antt =====
-- socket/FragmentStore.h: the sort by offset in `reassembleFrame`.
use mathlib.Core.List.Perm
use na62_farm.Base.{ℕ, inl, inr, List, [], ◌∷◌, Perm, ltb, Bool-cases}
use na62_farm.Frame.{Container, Header}
use na62_farm.Fragments.Reassembly.{hdr, insert_by_offset, sort_by_offset}

module _ (header : List ℕ → Header) where
  insert_by_offset-perm :
      (f : Container) (l : List Container) → Perm (insert_by_offset header f l) (f ∷ l)
  unfolding insert_by_offset
  insert_by_offset-perm f [] = Perm.rfl
  insert_by_offset-perm f (g ∷ l) =
      elim (Bool-cases (ltb (hdr header f).offset (hdr header g).offset)) [
        | inl e ↦ rw (e, insert_by_offset) Perm.rfl
        | inr e ↦
            rw (e, insert_by_offset)
              (Perm.trans (Perm.cons g (insert_by_offset-perm f l)) (Perm.swap f g l))
      ]

  -- Sorting loses no fragment and makes none up.
  pub sort_by_offset-perm : (l : List Container) → Perm (sort_by_offset header l) l
  unfolding sort_by_offset
  sort_by_offset-perm [] = Perm.rfl
  sort_by_offset-perm (f ∷ l) =
      Perm.trans (insert_by_offset-perm f (sort_by_offset header l))
        (Perm.cons f (sort_by_offset-perm l))
