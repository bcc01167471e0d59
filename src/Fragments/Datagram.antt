-- ===== src/Fragments/Datagram.antt =====
-- A datagram that a sender has split, and what `reassembleFrame` makes of its fragments once they
-- stand in order.
use na62_farm.Base.{
  ℕ, zero, suc, ◌+◌, ◌-◌, ◌≤◌, ◌<◌, ◌≡◌, refl, ◌∙◌, ap, ap₂, subst, true, false, List, [], ◌∷◌,
  ◌++◌, length, sum_by, take, drop, arith,
}
use mathlib.Core.List.{append-nil, append_assoc}
use na62_farm.Base.Words.{u64}
use na62_farm.Frame.{Container, Header, ip_payload_size}
use na62_farm.Fragments.Reassembly.{
  done, hdr, insert_by_offset, sort_by_offset, last_of, copy_rest, copy_first, copy_sorted,
}

module _ {ℓ} {A : Type ℓ} where
  take-all : (n : ℕ) (xs : List A) → length xs ≤ n → take n xs ≡ xs
  take-all zero [] h = refl
  take-all zero (x ∷ xs) h = absurd (omega arith)
  take-all (suc n) [] h = refl
  take-all (suc n) (x ∷ xs) h = ap (◌∷◌ x) (take-all n xs (omega arith))

  length-drop : (n : ℕ) (xs : List A) → length (drop n xs) ≡ length xs - n
  length-drop zero xs = omega arith
  length-drop (suc n) [] = omega arith
  length-drop (suc n) (x ∷ xs) = omega (arith, length-drop n xs)

module _ (header : List ℕ → Header) where
  -- Bytes of IP payload that the header announces.
  abbrev pub size : Container → ℕ
  size p = (hdr header p).tot_len - 20

  abbrev pub total : List Container → ℕ
  total = sum_by size

  abbrev pub payload : Container → List ℕ
  payload p = drop 34 p.data_bytes

  abbrev pub payloads : List Container → List ℕ
  payloads [] = []
  payloads (p ∷ l) = payload p ++ payloads l

  -- The datagram: the first fragment with its headers, and the payloads of the others.
  abbrev pub whole : List Container → List ℕ
  whole [] = []
  whole (p ∷ l) = p.data_bytes ++ payloads l

  -- A fragment at an offset, with some payload, in a frame that has no padding.
  pub record IsPiece (offset : ℕ) (p : Container) : Type 0 where
    pub starts : (hdr header p).offset ≡ offset
    pub not_empty : 20 < (hdr header p).tot_len
    pub fits : (hdr header p).tot_len ≤ 65535
    pub all_bytes : length p.data_bytes ≡ 14 + (hdr header p).tot_len
    pub no_padding : p.length ≡ 14 + (hdr header p).tot_len

  -- Fragments in order, each where the one before ends, the last of them marked as such.
  abbrev pub Chain : ℕ → List Container → Type 0
  Chain o [] = ⊥
  Chain o (p ∷ []) = IsPiece o p × ((hdr header p).more_fragments ≡ false)
  Chain o (p ∷ q ∷ l) =
      IsPiece o p × ((hdr header p).more_fragments ≡ true) × Chain (o + size p) (q ∷ l)

  pub payload_size-size :
      {o : ℕ} (p : Container) → IsPiece o p → ip_payload_size (hdr header p) ≡ size p
  payload_size-size p h = omega arith

  pub head-IsPiece : (o : ℕ) (p : Container) (l : List Container) → Chain o (p ∷ l) → IsPiece o p
  head-IsPiece o p [] h = h.0
  head-IsPiece o p (q ∷ l) h = h.0

  -- Fragments in order are left as they are by the sort.
  pub sort_by_offset-Chain : (o : ℕ) (l : List Container) → Chain o l → sort_by_offset header l ≡ l
  unfolding sort_by_offset insert_by_offset
  sort_by_offset-Chain o [] h = refl
  sort_by_offset-Chain o (p ∷ []) h = refl
  sort_by_offset-Chain o (p ∷ q ∷ l) h =
      let rest : sort_by_offset header (q ∷ l) ≡ q ∷ l =
        sort_by_offset-Chain (o + size p) (q ∷ l) h.2 in
      rw (rest, insert_by_offset)
        (ground (arith, h.0.starts, h.0.not_empty, (head-IsPiece (o + size p) q l h.2).starts))

  -- The end of the last fragment is the end of the datagram.
  last_of-Chain :
      (o : ℕ) (p : Container) (l : List Container)
      → Chain o (p ∷ l)
      → (hdr header (last_of p l)).offset + (hdr header (last_of p l)).tot_len
        ≡ o + total (p ∷ l) + 20
  unfolding last_of
  last_of-Chain o p [] h = omega (arith, h.0.starts, h.0.not_empty)
  last_of-Chain o p (q ∷ l) h = omega (arith, last_of-Chain (o + size p) q l h.2)

  copied_payload :
      (o : ℕ) (p : Container)
      → IsPiece o p
      → take (ip_payload_size (hdr header p)) (drop 34 p.data_bytes) ≡ payload p
  copied_payload o p h =
      take-all _ _ (omega (arith, length-drop 34 p.data_bytes, payload_size-size p h, h.all_bytes))

  copy_rest_step :
      (t : ℕ) (buffer : List ℕ) (o : ℕ) (p : Container) (l : List Container)
      → IsPiece o p
      → o + size p + 34 ≤ t
      → t ≤ 100000
      → copy_rest header t buffer (o + 34) (p ∷ l)
        ≡ copy_rest header t (buffer ++ payload p) (o + size p + 34) l
  unfolding copy_rest
  copy_rest_step t buffer o p l h b c =
      let e : u64 (o + 34 + ip_payload_size (hdr header p)) ≡ o + size p + 34 =
        omega (arith, payload_size-size p h) in
      rw (copied_payload o p h, e)
        (ground (arith, payload_size-size p h, h.starts, h.all_bytes, h.not_empty))

  copy_rest-Chain :
      (t : ℕ) (buffer : List ℕ) (o : ℕ) (p : Container) (l : List Container)
      → Chain o (p ∷ l)
      → o + total (p ∷ l) + 34 ≤ t
      → t ≤ 100000
      → copy_rest header t buffer (o + 34) (p ∷ l)
        ≡ done (buffer ++ payloads (p ∷ l)) (o + total (p ∷ l) + 34)
  copy_rest-Chain t buffer o p [] h b c =
      copy_rest_step t buffer o p [] h.0 (omega arith) c
      ∙ unfold copy_rest in
        rw (append-nil (payload p)) (ap (done (buffer ++ payload p)) (omega arith))
  copy_rest-Chain t buffer o p (q ∷ l) h b c =
      copy_rest_step t buffer o p (q ∷ l) h.0 (omega arith) c
      ∙ copy_rest-Chain t (buffer ++ payload p) (o + size p) q l h.2 (omega arith) c
      ∙ ap₂ done (append_assoc buffer (payload p) (payloads (q ∷ l))) (omega arith)

  copy_tail :
      (t : ℕ) (p : Container) (l : List Container)
      → Chain 0 (p ∷ l)
      → total (p ∷ l) + 34 ≤ t
      → t ≤ 100000
      → copy_rest header t p.data_bytes (size p + 34) l ≡ done (whole (p ∷ l)) (total (p ∷ l) + 34)
  copy_tail t p [] h b c =
      unfold copy_rest in rw (append-nil p.data_bytes) (ap (done p.data_bytes) (omega arith))
  copy_tail t p (q ∷ l) h b c =
      let z : 0 + size p ≡ size p = omega arith in
      copy_rest-Chain t p.data_bytes (size p) q l (subst (λ o. Chain o (q ∷ l)) z h.2) (omega arith)
        c
      ∙ ap (done (whole (p ∷ q ∷ l))) (omega arith)

  copy_first-Chain :
      (t : ℕ) (p : Container) (l : List Container)
      → Chain 0 (p ∷ l)
      → total (p ∷ l) + 34 ≤ t
      → t ≤ 100000
      → copy_first header t p l ≡ done (whole (p ∷ l)) (total (p ∷ l) + 34)
  unfolding copy_first
  copy_first-Chain t p l h b c =
      let piece = head-IsPiece 0 p l h in
      let e : p.length ≡ size p + 34 = omega (arith, piece.no_padding, piece.not_empty) in
      rw (take-all p.length p.data_bytes (omega (arith, piece.no_padding, piece.all_bytes)), e)
        (ground (arith, copy_tail t p l h b c, piece.starts, piece.all_bytes, piece.not_empty))

  -- Fragments in order are copied to the datagram that was split.
  pub copy_sorted-Chain :
      (l : List Container)
      → Chain 0 l
      → total l ≤ 65515
      → copy_sorted header l ≡ done (whole l) (total l + 34)
  unfolding copy_sorted
  copy_sorted-Chain [] h b = absurd h
  copy_sorted-Chain (p ∷ l) h b =
      copy_first-Chain _ p l h (omega (arith, last_of-Chain 0 p l h))
        (omega (arith, last_of-Chain 0 p l h))
