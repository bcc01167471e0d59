-- ===== src/FrameTasks/Disposal.antt =====
-- socket/HandleFrameTask.cpp: the buffer of a frame is freed at most once.
use na62_farm.Base.{
  ℕ, Bool, true, false, not, ◌||◌, Option, some, ◌∷◌, ◌≡◌, refl, ap, ◌⊎◌, inl, inr, arith,
  Bool-cases, ◌==◌, if◌then◌else◌,
}
use na62_farm.Frame.{Container, Header}
use na62_farm.EventBuilding.Library.{Library, Config}
use na62_farm.FrameTasks.Network.{ArpHeader, Network}
use na62_farm.FrameTasks.State.{Farm, Outcome, Action, choose}
use na62_farm.FrameTasks.Process.{
  check_frame, free_container, process_arp_request, process_cream, process_datagram, process_frame,
  catching, discard,
}
use na62_farm.FrameTasks.Buffers.{
  Untouched, Untouched-refl, and_then-Leaves, with_value-Leaves, on_builders-Leaves, modify-Leaves,
  process_l0-Leaves,
}

-- The buffer was freed, and dumped if the option says so.
pub record Discarded (net : Network) (c : Container) (s t : Farm) : Type 0 where
  pub store_kept : t.store ≡ s.store
  pub freed_once : t.freed ≡ c ∷ s.freed
  pub dumped_so : t.dumped ≡ (if net.dump_bad_packets then c ∷ s.dumped else s.dumped)

module _ (net : Network) (lib : Library) (config : Config) (burst_id : ℕ) (c : Container) where
  free_container-Discarded :
      (s t : Farm) → Untouched s t → Discarded net c s (free_container net c t)
  unfolding free_container
  free_container-Discarded s t h = record {
    store_kept = h.store_kept;
    freed_once = ap (λ l. c ∷ l) h.freed_kept;
    dumped_so = ap (λ l. if net.dump_bad_packets then c ∷ l else l) h.dumped_kept;
  }

  -- An action leaves the buffer alone, or it finishes and has freed it.
  abbrev Handles : Action → Type 0
  Handles m =
      (s : Farm) → Untouched s (m s).1 ⊎ (((m s).0 ≡ Outcome.finished) × Discarded net c s (m s).1)

  discard-Handles : Handles (discard net c)
  discard-Handles s = inr (refl, free_container-Discarded s s (Untouched-refl s))

  choose-Handles : (b : Bool) (m n : Action) → Handles m → Handles n → Handles (choose b m n)
  unfolding choose
  choose-Handles true m n k l = k
  choose-Handles false m n k l = l

  process_cream-Handles : (h : Header) → Handles (process_cream net lib config burst_id c h)
  unfolding process_cream
  process_cream-Handles h = choose-Handles _ _ _ discard-Handles λ s. inl (
      with_value-Leaves _ _
        (λ mep. with_value-Leaves (net.l1_source_id_to_num mep.source_id) _ λ n.
          and_then-Leaves _ _
            (modify-Leaves _
              λ s. record { store_kept = refl; freed_kept = refl; dumped_kept = refl })
            (on_builders-Leaves _))
        s)

  process_datagram-Handles : Handles (process_datagram net lib config burst_id c)
  unfolding process_datagram
  process_datagram-Handles =
      choose-Handles _ _ _ (λ s. inl (process_l0-Leaves net lib config burst_id c _ s))
        (choose-Handles _ _ _ (process_cream-Handles _) discard-Handles)

  -- The buffer was left alone or freed once.
  abbrev pub Once : Farm → Farm → Type 0
  Once s t = Untouched s t ⊎ Discarded net c s t

  catching-Once :
      (s : Farm) (t : Outcome × Farm)
      → Untouched s t.1 ⊎ ((t.0 ≡ Outcome.finished) × Discarded net c s t.1)
      → Once s (catching net lib config burst_id c t)
  catching-Once s (Outcome.finished, t) (inl h) = inl h
  catching-Once s (Outcome.finished, t) (inr h) = inr h.1
  catching-Once s (Outcome.thrown, t) (inl h) = inr (free_container-Discarded s t h)
  catching-Once s (Outcome.thrown, t) (inr h) = ground arith

  abbrev pub EndsOnce : Farm → Option Farm → Type 0
  EndsOnce s o = (t : Farm) × (o ≡ some t) × Once s t

  if-EndsOnce :
      (s : Farm) (b : Bool) (o p : Option Farm)
      → EndsOnce s o
      → EndsOnce s p
      → EndsOnce s (if b then o else p)
  if-EndsOnce s true o p h k = h
  if-EndsOnce s false o p h k = k

  process_arp_request-Untouched :
      (arp : ArpHeader) (s : Farm) → Untouched s (process_arp_request net arp s)
  unfolding process_arp_request
  process_arp_request-Untouched arp s = elim (Bool-cases (arp.target_ip == net.my_ip)) [
    | inl e ↦
        rw (e, process_arp_request)
          (record { store_kept = refl; freed_kept = refl; dumped_kept = refl })
    | inr e ↦ rw (e, process_arp_request) (Untouched-refl s)
  ]

-- A frame that is no IP fragment is always handled without a fault, whatever the parsers throw. It
-- changes nothing in the store of fragments, and its buffer is either neither freed nor
-- dumped, or freed exactly once, and then dumped exactly if the option is set.
pub process_frame-EndsOnce :
    (net : Network) (lib : Library) (config : Config) (burst_id : ℕ) (c : Container) (s : Farm)
    → (net.header c.data_bytes).is_fragment ≡ false
    → EndsOnce net lib config burst_id c s (process_frame net lib config burst_id c s)
unfolding process_frame
process_frame-EndsOnce net lib config burst_id c s whole =
    let h = net.header c.data_bytes in
    let refused : EndsOnce net lib config burst_id c s (some (free_container net c s)) = (
      free_container net c s,
      refl,
      inr (free_container-Discarded net lib config burst_id c s s (Untouched-refl s)),
    ) in
    let rule = if-EndsOnce net lib config burst_id c s in
    rule (not (h.ether_type == 0x8) || not (h.protocol == 17)) _ _
      (rule (h.ether_type == 0x608) _ _
        (
          process_arp_request net (net.arp_header c.data_bytes) s,
          refl,
          inl (
              process_arp_request-Untouched net lib config burst_id c (net.arp_header c.data_bytes)
                s),
        )
        refused)
      (rule (not (check_frame h c.length)) _ _ refused (
        rule (not (net.my_ip == h.daddr)) _ _ refused (
          rw whole (
            catching net lib config burst_id c (process_datagram net lib config burst_id c s),
            refl,
            catching-Once net lib config burst_id c s (process_datagram net lib config burst_id c s)
                (process_datagram-Handles net lib config burst_id c s),
          ))))

-- The frame of an ARP request is never freed: `processFrame` returns without a call of `free`,
-- against its comment.
pub process_frame-arp_leaks :
    (net : Network) (lib : Library) (config : Config) (burst_id : ℕ) (c : Container) (s : Farm)
    → (net.header c.data_bytes).ether_type ≡ 0x608
    → (t : Farm) × (process_frame net lib config burst_id c s ≡ some t) × (t.freed ≡ s.freed)
unfolding process_frame
process_frame-arp_leaks net lib config burst_id c s arp = (
  process_arp_request net (net.arp_header c.data_bytes) s,
  rw (arp, process_frame) refl,
  (process_arp_request-Untouched net lib config burst_id c (net.arp_header c.data_bytes)
      s).freed_kept,
)
