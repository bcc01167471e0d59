-- ===== src/Fragments/Permuted.antt =====
-- What does not depend on the order in which the fragments of a datagram arrive.
use mathlib.Core.List.{Permᴰ}
use mathlib.Core.List.Permᴰ
use na62_farm.Base.{
  ℕ, ◌+◌, ◌≤◌, ◌<◌, ◌≡◌, ◌≢◌, refl, sym, ◌∙◌, ap₂, subst, List, [], ◌∷◌, All, All-perm, arith,
}
use na62_farm.Frame.{Container, Header}
use na62_farm.Fragments.Reassembly.{hdr, insert_by_offset, sort_by_offset}
use na62_farm.Fragments.Datagram.{size, Chain, sort_by_offset-Chain}

module _ (header : List ℕ → Header) where
  -- No two of the fragments start at the same offset.
  abbrev Apart : Container → Container → Type 0
  Apart f g = (hdr header f).offset ≢ (hdr header g).offset

  abbrev AllApart : List Container → Type 0
  AllApart [] = Unit
  AllApart (f ∷ l) = All (Apart f) l × AllApart l

  insert_comm :
      (f g : Container) (l : List Container)
      → Apart f g
      → insert_by_offset header f (insert_by_offset header g l)
        ≡ insert_by_offset header g (insert_by_offset header f l)
  unfolding insert_by_offset
  insert_comm f g [] h = ground arith
  insert_comm f g (x ∷ l) h = ground (arith, insert_comm f g l)

  AllApart-perm : {xs ys : List Container} → Permᴰ xs ys → AllApart xs → AllApart ys
  AllApart-perm Permᴰ.nil h = h
  AllApart-perm (Permᴰ.cons {b = b} {l₁ = l₁} {l₂ = l₂} e p) h =
      (All-perm (Apart b) p (subst (λ c. All (Apart c) l₁) e h.0), AllApart-perm p h.1)
  AllApart-perm (Permᴰ.swap {a = a} {b = b} {b' = b'} {l = l} e d) h =
      subst (λ c. AllApart (c ∷ b' ∷ l)) d
        (subst (λ c. AllApart (b ∷ c ∷ l)) e (((λ q. h.0.0 (sym q)), h.1.0), (h.0.1, h.1.1)))
  AllApart-perm (Permᴰ.trans p q) h = AllApart-perm q (AllApart-perm p h)

  sort_by_offset-eq :
      {xs ys : List Container}
      → Permᴰ xs ys
      → AllApart xs
      → sort_by_offset header xs ≡ sort_by_offset header ys
  unfolding sort_by_offset
  sort_by_offset-eq Permᴰ.nil h = refl
  sort_by_offset-eq (Permᴰ.cons e p) h = ap₂ (insert_by_offset header) e (sort_by_offset-eq p h.1)
  sort_by_offset-eq (Permᴰ.swap {a = a} {b = b} {l = l} e d) h =
      insert_comm a b (sort_by_offset header l) h.0.0
      ∙ ap₂
          (λ c c'. insert_by_offset header c (insert_by_offset header c' (sort_by_offset header l)))
          d e
  sort_by_offset-eq (Permᴰ.trans p q) h =
      sort_by_offset-eq p h ∙ sort_by_offset-eq q (AllApart-perm p h)

  -- In a chain every later fragment starts at or after the end of the first.
  Chain-after :
      (o b : ℕ) (l : List Container)
      → b ≤ o
      → Chain header o l
      → All (λ f. b ≤ (hdr header f).offset) l
  Chain-after o b [] h c = absurd c
  Chain-after o b (p ∷ []) h c = (omega (arith, c.0.starts), tt)
  Chain-after o b (p ∷ q ∷ l) h c =
      (omega (arith, c.0.starts), Chain-after (o + size header p) b (q ∷ l) (omega arith) c.2)

  Apart-above :
      (p : Container) (b : ℕ) (l : List Container)
      → (hdr header p).offset < b
      → All (λ f. b ≤ (hdr header f).offset) l
      → All (Apart p) l
  Apart-above p b [] h a = tt
  Apart-above p b (q ∷ l) h a = ((λ e. omega arith), Apart-above p b l h a.1)

  Chain-AllApart : (o : ℕ) (l : List Container) → Chain header o l → AllApart l
  Chain-AllApart o [] c = absurd c
  Chain-AllApart o (p ∷ []) c = (tt, tt)
  Chain-AllApart o (p ∷ q ∷ l) c = (
    Apart-above p (o + size header p) (q ∷ l) (omega (arith, c.0.starts, c.0.not_empty))
        (Chain-after (o + size header p) (o + size header p) (q ∷ l) (omega arith) c.2),
    Chain-AllApart (o + size header p) (q ∷ l) c.2,
  )

  -- Whatever the order of arrival, the sort puts the fragments of a datagram in order.
  pub sort_by_offset-pieces :
      (o : ℕ) {arrivals : List Container} (pieces : List Container)
      → Permᴰ arrivals pieces
      → Chain header o pieces
      → sort_by_offset header arrivals ≡ pieces
  sort_by_offset-pieces o pieces p c =
      sym (sort_by_offset-eq (Permᴰ.symm p) (Chain-AllApart o pieces c))
      ∙ sort_by_offset-Chain header o pieces c
