-- ===== src/Fragments/RoundTrip.antt =====
-- A datagram that was split is put together again, in whatever order its fragments arrive.
use mathlib.Core.List.{Permᴰ, append_assoc}
use mathlib.Core.List.Permᴰ
use na62_farm.Base.{
  ℕ, ◌+◌, ◌≤◌, ◌≡◌, refl, sym, ◌∙◌, ap, ap₂, subst, true, List, [], ◌∷◌, ◌++◌, All, All-perm,
  All-append_left, All-middle, sum_by-append, sum_by-perm, if◌then◌else◌, arith,
}
use na62_farm.Base.Words.{u32}
use na62_farm.Frame.{Container, Header}
use na62_farm.Fragments.Slots.{Store, slot_of, fragments_at, fragments_at-set_self}
use na62_farm.Fragments.Reassembly.{Added, waiting, assembled, hdr, reassemble_frame}
use na62_farm.Fragments.Add.{complete, add_fragment, frag_id_of}
use na62_farm.Fragments.Invariant.{count_last, complete-empties}
use na62_farm.Fragments.Datagram.{size, total, whole, Chain, copy_sorted-Chain}
use na62_farm.Fragments.Calls.{IsPart, step_waits, step_completes}
use na62_farm.Fragments.Permuted.{sort_by_offset-pieces}

-- The calls of `addFragment` for fragments that arrive one after the other.
unfoldable pub add_all : (List ℕ → Header) → List Container → Store → List Added × Store
add_all header [] s = ([], s)
add_all header (f ∷ l) s =
    let (r, s') = add_fragment header f s in let (rs, s'') = add_all header l s' in (r ∷ rs, s'')

-- Every call but the last returns the empty container.
abbrev pub only_last : List Container → Added → List Added
only_last [] r = []
only_last (f ∷ []) r = r ∷ []
only_last (f ∷ g ∷ l) r = waiting ∷ only_last (g ∷ l) r

module _ (header : List ℕ → Header) where
  Chain-parts :
      (k o t : ℕ) (l : List Container)
      → Chain header o l
      → All (λ p. frag_id_of header p ≡ k) l
      → o + total header l ≡ t
      → All (IsPart header k t) l
  Chain-parts k o t [] c ids e = absurd c
  Chain-parts k o t (p ∷ []) c ids e = (
    record {
      filed = ids.0;
      not_empty = c.0.not_empty;
      fits = c.0.fits;
      ends = λ _. omega (arith, c.0.starts);
    },
    tt,
  )
  Chain-parts k o t (p ∷ q ∷ l) c ids e = (
    record {
      filed = ids.0;
      not_empty = c.0.not_empty;
      fits = c.0.fits;
      ends = λ final. cc (c.1, final);
    },
    Chain-parts k (o + size header p) t (q ∷ l) c.2 ids.1 (omega arith),
  )

  Chain-one_last : (o : ℕ) (l : List Container) → Chain header o l → count_last header l ≡ 1
  Chain-one_last o [] c = absurd c
  Chain-one_last o (p ∷ []) c = rw c.1 refl
  Chain-one_last o (p ∷ q ∷ l) c =
      ground (arith, c.1, Chain-one_last (o + size header p) (q ∷ l) c.2)

  complete_result :
      (n k : ℕ) (pieces : List Container) (s : Store)
      → Chain header 0 pieces
      → total header pieces ≤ 65515
      → Permᴰ (fragments_at n k s) pieces
      → (complete header n k s).0
        ≡ assembled (record {
          data_bytes = whole header pieces;
          length = total header pieces + 34;
          owned = true;
        })
  unfolding complete reassemble_frame fragments_at
  complete_result n k pieces s c small p =
      rw (sort_by_offset-pieces header 0 pieces p c, copy_sorted-Chain header pieces c small) refl

  module _ (k : ℕ) (pieces : List Container) (chain : Chain header 0 pieces)
      (ids : All (λ p. frag_id_of header p ≡ k) pieces) (small : total header pieces ≤ 65515) where
    abbrev datagram : Added
    datagram = assembled (record {
      data_bytes = whole header pieces;
      length = total header pieces + 34;
      owned = true;
    })

    abbrev Delivers : List Container → Store → Type 0
    Delivers ys s =
        ((add_all header ys s).0 ≡ only_last ys datagram)
        × (fragments_at (slot_of k) k (add_all header ys s).1 ≡ [])

    arrival_parts :
        (xs : List Container) → Permᴰ xs pieces → All (IsPart header k (total header pieces)) xs
    arrival_parts xs p =
        All-perm (IsPart header k (total header pieces)) (Permᴰ.symm p)
          (Chain-parts k 0 (total header pieces) pieces chain ids (omega arith))

    arrival_total : (xs : List Container) → Permᴰ xs pieces → total header xs ≡ total header pieces
    arrival_total xs p = sum_by-perm (size header) p

    arrival_last : (xs : List Container) → Permᴰ xs pieces → count_last header xs ≡ 1
    arrival_last xs p = sum_by-perm _ p ∙ Chain-one_last 0 pieces chain

    -- the call for the fragment that completes the datagram
    last_call :
        (xs : List Container) (f : Container) (s : Store)
        → fragments_at (slot_of k) k s ≡ xs
        → Permᴰ (xs ++ f ∷ []) pieces
        → ((add_fragment header f s).0 ≡ datagram)
          × (fragments_at (slot_of k) k (add_fragment header f s).1 ≡ [])
    last_call xs f s stored p =
        let now = xs ++ f ∷ [] in
        let parts = arrival_parts now p in
        let full = arrival_total now p in
        let last = arrival_last now p in
        let done_here =
          step_completes header k (total header pieces) xs f s small stored parts (omega arith)
            (omega arith) (All-middle (IsPart header k (total header pieces)) xs [] parts).filed
            full last in
        let held =
          fragments_at-set_self (slot_of k) k
            (record s { fragments_received = u32 (s.fragments_received + 1) }) now in
        (
          ap (λ r. r.0) done_here
              ∙ complete_result (slot_of k) k pieces _ chain small
                  (subst (λ l. Permᴰ l pieces) (sym held) p),
          ap (λ r. fragments_at (slot_of k) k r.1) done_here
              ∙ complete-empties header (slot_of k) k _,
        )

    -- the call for a fragment after which others are missing
    early_call :
        (xs : List Container) (f g : Container) (ys : List Container) (s : Store)
        → fragments_at (slot_of k) k s ≡ xs
        → Permᴰ ((xs ++ f ∷ []) ++ g ∷ ys) pieces
        → ((add_fragment header f s).0 ≡ waiting)
          × (fragments_at (slot_of k) k (add_fragment header f s).1 ≡ xs ++ f ∷ [])
    early_call xs f g ys s stored p =
        let now = xs ++ f ∷ [] in
        let P = IsPart header k (total header pieces) in
        let parts = arrival_parts (now ++ g ∷ ys) p in
        let early = All-append_left P now (g ∷ ys) parts in
        let all = arrival_total (now ++ g ∷ ys) p in
        let lasts = arrival_last (now ++ g ∷ ys) p in
        let missing = (All-middle P now ys parts).not_empty in
        let sums = sum_by-append (size header) now (g ∷ ys) in
        let counts =
          sum_by-append (λ c. if (hdr header c).more_fragments then 0 else 1) now (g ∷ ys) in
        let waits =
          step_waits header k (total header pieces) xs f s small stored early (omega arith)
            (omega arith) (All-middle P xs [] early).filed (λ e. omega arith) in
        (
          ap (λ r. r.0) waits,
          ap (λ r. fragments_at (slot_of k) k r.1) waits ∙ fragments_at-set_self _ _ _ _,
        )

    add_all-Delivers :
        (xs : List Container) (f : Container) (ys : List Container) (s : Store)
        → fragments_at (slot_of k) k s ≡ xs
        → Permᴰ (xs ++ f ∷ ys) pieces
        → Delivers (f ∷ ys) s
    unfolding add_all
    add_all-Delivers xs f [] s stored p =
        let call = last_call xs f s stored p in (ap (λ r. r ∷ []) call.0, call.1)
    add_all-Delivers xs f (g ∷ ys) s stored p =
        let p' = subst (λ l. Permᴰ l pieces) (sym (append_assoc xs (f ∷ []) (g ∷ ys))) p in
        let call = early_call xs f g ys s stored p' in
        let rest = add_all-Delivers (xs ++ f ∷ []) g ys (add_fragment header f s).1 call.1 p' in
        (ap₂ ◌∷◌ call.0 rest.0, rest.1)

-- Split a datagram of at most 65515 bytes of payload into a chain of frames without padding, each
-- with some payload and all with one source address and identification, and let the frames arrive in
-- any order at a store that holds nothing under that key. Then every call of `addFragment` but
-- the last returns the empty container, the last returns the first frame with the payloads of the
-- others behind it, in the order of their offsets, and nothing is left under the key.
pub reassembly :
    (header : List ℕ → Header) (k : ℕ) (pieces arrivals : List Container) (s : Store)
    → Chain header 0 pieces
    → All (λ p. frag_id_of header p ≡ k) pieces
    → total header pieces ≤ 65515
    → Permᴰ arrivals pieces
    → fragments_at (slot_of k) k s ≡ []
    → ((add_all header arrivals s).0
        ≡ only_last arrivals (
            assembled (record {
              data_bytes = whole header pieces;
              length = total header pieces + 34;
              owned = true;
            })))
      × (fragments_at (slot_of k) k (add_all header arrivals s).1 ≡ [])
reassembly header k pieces [] s chain ids small p empty = unfold add_all in (refl, empty)
reassembly header k pieces (f ∷ ys) s chain ids small p empty =
    add_all-Delivers header k pieces chain ids small [] f ys s empty p
