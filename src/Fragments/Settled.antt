-- ===== src/Fragments/Settled.antt =====
-- socket/FragmentStore.h: what `addFragment` makes of the fragments of one datagram, against the
-- table of datagrams.
use na62_farm.Base.{
  ℕ, ◌+◌, ◌^◌, ◌≤◌, ◌<◌, ◌≡◌, refl, sym, subst, ◌∙◌, ap, Bool, true, false, Option, none, some,
  List, [], ◌∷◌, All, All-keep, keep, sum_by, length, arith, if◌then◌else◌,
}
use na62_farm.Frame.{Container, Header}
use na62_farm.Fragments.Slots.{Store, fragments_at, clean_all, fragments_at-clean_self}
use na62_farm.Fragments.Reassembly.{
  Added, waiting, hdr, to_added, sort_by_offset, copy_sorted, reassemble_frame,
}
use na62_farm.Fragments.Add.{Scan, scan_one, scan_from, scan, complete, check_complete, settle}
use na62_farm.Fragments.Invariant.{count_last, counter-scan_from, complete-empties}
use na62_farm.Fragments.View.{payload, is_final, decide, Fits}

module _ (header : List ℕ → Header) where
  sum-scan_from :
      (t : Scan) (l : List Container)
      → t.sum + sum_by (payload header) l < 2 ^ 32
      → (scan_from header t l).sum ≡ t.sum + sum_by (payload header) l
  unfolding scan_from
  sum-scan_from t [] h = omega arith
  sum-scan_from t (f ∷ l) h = ground (arith, h, sum-scan_from (scan_one header f t) l)

  abbrev last_or : Option Container → List Container → Option Container
  last_or o [] = o
  last_or o (x ∷ l) = last_or (some x) l

  last-scan_from :
      (t : Scan) (l : List Container)
      → (scan_from header t l).last ≡ last_or t.last (keep (is_final header) l)
  unfolding scan_from
  last-scan_from t [] = refl
  last-scan_from t (f ∷ l) = ground (arith, last-scan_from (scan_one header f t) l)

  length-finals : (l : List Container) → length (keep (is_final header) l) ≡ count_last header l
  length-finals [] = refl
  length-finals (f ∷ l) = ground (arith, length-finals l)

  module _ (n k : ℕ) (l : List Container) (s : Store) (e : fragments_at n k s ≡ l) where
    -- A result of the code, against one of `decide`.
    abbrev Implements : Added × Store → Added × List Container → Type 0
    Implements (r, s') (r', l') = (r ≡ r') × (fragments_at n k s' ≡ l')

    waiting-Implements : Implements (waiting, s) (waiting, l)
    waiting-Implements = (refl, e)

    complete-Implements :
        Implements
          (complete header n k s)
          (to_added (copy_sorted header (sort_by_offset header l)), [])
    unfolding complete reassemble_frame fragments_at
    complete-Implements = (
      ap (λ t. to_added (copy_sorted header (sort_by_offset header t))) e,
      complete-empties header n k s,
    )

    if-Implements :
        (a b : Bool) (t : Added × Store) (r : Added × List Container)
        → a ≡ b
        → Implements t r
        → Implements (if a then t else (waiting, s)) (if b then r else (waiting, l))
    if-Implements true true t r f h = h
    if-Implements true false t r f h = absurd (cc)
    if-Implements false true t r f h = absurd (cc)
    if-Implements false false t r f h = waiting-Implements

    check_complete-Implements :
        (x : Container)
        → (hdr header x).offset + payload header x < 2 ^ 32
        → Implements
            (check_complete header n k (some x) (sum_by (payload header) l) s)
            (decide header l (x ∷ []))
    unfolding check_complete decide
    check_complete-Implements x small =
        if-Implements _ _ _ _ (ground (arith, small)) complete-Implements

    final_count :
        (o : List Container) → keep (is_final header) l ≡ o → count_last header l ≡ length o
    final_count o f = sym (length-finals l) ∙ ap (λ t. length t) f

    scan-count :
        (o : List Container)
        → keep (is_final header) l ≡ o
        → count_last header l ≤ 2
        → (scan header l).counter ≡ length o
    scan-count o f few =
        counter-scan_from header (record { sum = 0; last = none; counter = 0 }) l
          (omega (arith, few))
        ∙ omega (arith, final_count o f)

    scan-last :
        (o : List Container) → keep (is_final header) l ≡ o → (scan header l).last ≡ last_or none o
    scan-last o f =
        last-scan_from (record { sum = 0; last = none; counter = 0 }) l ∙ ap (λ t. last_or none t) f

    scan-sum : Fits header l → (scan header l).sum ≡ sum_by (payload header) l
    scan-sum fits =
        sum-scan_from (record { sum = 0; last = none; counter = 0 }) l (omega (arith, fits.1))
        ∙ omega arith

    -- With at most one final fragment, `settle` compares the sums.
    settle-one :
        (t : Scan) (o : Option Container) (m c : ℕ)
        → t.counter ≡ c
        → c ≤ 1
        → t.last ≡ o
        → t.sum ≡ m
        → settle header n k t s ≡ check_complete header n k o m s
    unfolding settle
    settle-one t o m c a few b d = ground (arith, a, few, b, d)

    settle-two :
        (t : Scan) (c : ℕ)
        → t.counter ≡ c
        → 1 < c
        → settle header n k t s ≡ (waiting, clean_all n k s)
    unfolding settle
    settle-two t c a many = ground (arith, a, many)

    pub settle-Implements :
        Fits header l
        → count_last header l ≤ 2
        → (o : List Container) → keep (is_final header) l ≡ o
        → Implements (settle header n k (scan header l) s) (decide header l o)
    unfolding check_complete decide
    settle-Implements fits few [] f =
        subst (λ t. Implements t (waiting, l))
          (sym (
            settle-one (scan header l) none (sum_by (payload header) l) 0 (scan-count [] f few)
              (omega arith) (scan-last [] f) (scan-sum fits)))
          waiting-Implements
    settle-Implements fits few (x ∷ []) f =
        subst (λ t. Implements t (decide header l (x ∷ [])))
          (sym (
            settle-one (scan header l) (some x) (sum_by (payload header) l) 1
              (scan-count (x ∷ []) f few) (omega arith) (scan-last (x ∷ []) f) (scan-sum fits)))
          (check_complete-Implements x
            (subst (All (λ y. (hdr header y).offset + payload header y < 2 ^ 32)) f
              (All-keep _ (is_final header) l fits.0)).0)
    settle-Implements fits few (x ∷ y ∷ r) f =
        subst (λ t. Implements t (waiting, []))
          (sym (
            settle-two (scan header l) (length (x ∷ y ∷ r)) (scan-count (x ∷ y ∷ r) f few)
              (omega arith)))
          (refl, fragments_at-clean_self n k s)
