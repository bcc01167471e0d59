-- ===== src/Fragments/Calls.antt =====
-- One call of `addFragment` for a fragment of a datagram that some sender has split.
use na62_farm.Base.{
  ℕ, ◌+◌, ◌≤◌, ◌<◌, ◌≡◌, ◌≢◌, refl, sym, ◌∙◌, false, Option, none, some, List, [], ◌∷◌, ◌++◌, All,
  Bool-cases, inl, inr, arith,
}
use na62_farm.Base.Words.{u32}
use na62_farm.Frame.{Container, Header}
use na62_farm.Fragments.Slots.{Store, slot_of, fragments_at, set_fragments}
use na62_farm.Fragments.Reassembly.{waiting, hdr}
use na62_farm.Fragments.Add.{
  Scan, scan_one, scan, scan_from, complete, check_complete, settle, add_fragment, frag_id_of,
  expected_payload_sum,
}
use na62_farm.Fragments.Invariant.{count_last, counter-scan_from}
use na62_farm.Fragments.Datagram.{size, total}

module _ (header : List ℕ → Header) where
  -- What holds of each fragment of a datagram, whatever its place in the order of arrival.
  pub record IsPart (k t : ℕ) (p : Container) : Type 0 where
    pub filed : frag_id_of header p ≡ k
    pub not_empty : 20 < (hdr header p).tot_len
    pub fits : (hdr header p).tot_len ≤ 65535
    pub ends : (hdr header p).more_fragments ≡ false → (hdr header p).offset + size header p ≡ t

  -- `lastFragment` after the loop, if some final fragment is there.
  abbrev pub LastIs : ℕ → Option Container → Type 0
  LastIs t none = Unit
  LastIs t (some l) = expected_payload_sum (hdr header l) ≡ t

  scan_from-sum :
      (k t : ℕ) (a : Scan) (l : List Container)
      → All (IsPart k t) l
      → a.sum + total header l ≤ 100000
      → (scan_from header a l).sum ≡ a.sum + total header l
  unfolding scan_from
  scan_from-sum k t a [] h b = omega arith
  scan_from-sum k t a (f ∷ l) h b = omega (
    arith,
    scan_from-sum k t (scan_one header f a) l h.1 (omega (arith, h.0.not_empty, h.0.fits)),
    h.0.not_empty,
    h.0.fits,
  )

  scan_from-last :
      (k t : ℕ) (a : Scan) (l : List Container)
      → t ≤ 65515
      → All (IsPart k t) l
      → LastIs t a.last
      → LastIs t (scan_from header a l).last
  unfolding scan_from
  scan_from-last k t a [] b h g = g
  scan_from-last k t a (f ∷ l) b h g =
      scan_from-last k t (scan_one header f a) l b h.1
        (elim (Bool-cases (hdr header f).more_fragments) [
          | inl more ↦ rw more g
          | inr final ↦ rw final (omega (arith, h.0.ends final, h.0.not_empty, h.0.fits))
        ])

  some_last : (a : Scan) (l : List Container) → a.last ≢ none → (scan_from header a l).last ≢ none
  unfolding scan_from
  some_last a [] h = h
  some_last a (f ∷ l) h =
      some_last (scan_one header f a) l (elim (Bool-cases (hdr header f).more_fragments) [
        | inl more ↦ rw more h
        | inr final ↦ rw final (λ e. cc)
      ])

  -- A final fragment among those received is found.
  scan_from-found :
      (a : Scan) (l : List Container) → 1 ≤ count_last header l → (scan_from header a l).last ≢ none
  unfolding scan_from
  scan_from-found a [] h = absurd (omega arith)
  scan_from-found a (f ∷ l) h = elim (Bool-cases (hdr header f).more_fragments) [
    | inl more ↦ scan_from-found (scan_one header f a) l (ground arith)
    | inr final ↦ some_last (scan_one header f a) l (rw final (λ e. cc))
  ]

  module _ (n j t sum : ℕ) (s : Store) where
    check_waits :
        (o : Option Container)
        → LastIs t o
        → sum ≢ t
        → check_complete header n j o sum s ≡ (waiting, s)
    unfolding check_complete
    check_waits none found short = refl
    check_waits (some l) found short = ground arith

    check_completes :
        (o : Option Container)
        → LastIs t o
        → o ≢ none
        → sum ≡ t
        → check_complete header n j o sum s ≡ complete header n j s
    unfolding check_complete
    check_completes none found last full = absurd (last refl)
    check_completes (some l) found last full = ground arith

  settle_small :
      (n j : ℕ) (a : Scan) (s : Store)
      → a.counter ≤ 1
      → settle header n j a s ≡ check_complete header n j a.last a.sum s
  unfolding settle
  settle_small n j a s one = ground arith

  -- One call, for a fragment `f` of a datagram of `t` bytes of payload under the key `k`, of which
  -- the fragments `xs` are stored.
  module _ (k t : ℕ) (xs : List Container) (f : Container) (s : Store) (small : t ≤ 65515)
      (stored : fragments_at (slot_of k) k s ≡ xs) (parts : All (IsPart k t) (xs ++ f ∷ []))
      (within : total header (xs ++ f ∷ []) ≤ t)
      (one_last : count_last header (xs ++ f ∷ []) ≤ 1) where
    abbrev pub now : List Container
    now = xs ++ f ∷ []

    abbrev pub filed_store : Store
    filed_store =
        set_fragments (slot_of k) k now
          (record s { fragments_received = u32 (s.fragments_received + 1) })

    abbrev start : Scan
    start = record { sum = 0; last = none; counter = 0 }

    now_counter : (scan header now).counter ≤ 1
    now_counter = omega (arith, counter-scan_from header start now)

    now_sum : (scan header now).sum ≡ total header now
    now_sum = omega (arith, scan_from-sum k t start now parts)

    now_last : LastIs t (scan header now).last
    now_last = scan_from-last k t start now small parts tt

    add_fragment_settles :
        frag_id_of header f ≡ k
        → add_fragment header f s ≡ settle header (slot_of k) k (scan header now) filed_store
    unfolding add_fragment
    add_fragment_settles e = rw (e, stored) refl

    pub step_waits :
        frag_id_of header f ≡ k
        → total header now ≢ t
        → add_fragment header f s ≡ (waiting, filed_store)
    step_waits e short =
        add_fragment_settles e
        ∙ settle_small (slot_of k) k (scan header now) filed_store now_counter
        ∙ check_waits (slot_of k) k t _ filed_store (scan header now).last now_last
            (λ q. short (sym now_sum ∙ q))

    pub step_completes :
        frag_id_of header f ≡ k
        → total header now ≡ t
        → count_last header now ≡ 1
        → add_fragment header f s ≡ complete header (slot_of k) k filed_store
    step_completes e full last =
        add_fragment_settles e
        ∙ settle_small (slot_of k) k (scan header now) filed_store now_counter
        ∙ check_completes (slot_of k) k t _ filed_store (scan header now).last now_last
            (scan_from-found start now (omega arith)) (now_sum ∙ full)
