-- ===== src/FrameTasks/Carried.antt =====
-- socket/HandleFrameTask.cpp: what the building of events keeps, the handling of frames keeps.
use na62_farm.Base.{
  ℕ, zero, suc, Bool, true, false, not, ◌||◌, Option, none, some, List, [], ◌∷◌, ◌≡◌, refl, subst,
  some_inj, arith, ◌==◌, if◌then◌else◌,
}
use na62_farm.Frame.{Container, Header}
use na62_farm.Fragments.Reassembly.{Added, waiting, assembled, overrun}
use na62_farm.Fragments.Slots.{Store}
use na62_farm.Fragments.Add.{add_fragment}
use na62_farm.EventBuilding.Library.{Fragment, Library, Config}
use na62_farm.EventBuilding.State.{M}
use na62_farm.EventBuilding.L1Builder
use na62_farm.EventBuilding.L2Builder
use na62_farm.FrameTasks.Network.{Mep, Block, ArpHeader, Network}
use na62_farm.FrameTasks.State.{
  Farm, Outcome, Action, finish, and_then, unless_thrown, choose, modify, with_value, on_builders,
}
use na62_farm.FrameTasks.Process.{
  each, check_frame, free_container, process_arp_request, invent, invent_blocks, process_l0,
  process_cream, process_datagram, process_frame, after_fragment, catching, unless_fault, execute,
  build_fragments,
}

module _ (P : Farm → Type 0) where
  abbrev Keeps : Action → Type 0
  Keeps m = (s : Farm) → P s → P (m s).1

  each-Keeps :
      (m : ℕ → M Unit) (n : ℕ)
      → ((i : ℕ) → Keeps (on_builders (m i)))
      → Keeps (on_builders (each m n))
  unfolding each on_builders
  each-Keeps m zero k s h = h
  each-Keeps m (suc n) k s h =
      k n (record s { builders = (each m n s.builders).1 }) (each-Keeps m n k s h)

  choose-Keeps : (b : Bool) (m n : Action) → Keeps m → Keeps n → Keeps (choose b m n)
  unfolding choose
  choose-Keeps true m n k l = k
  choose-Keeps false m n k l = l

  unless_thrown-keeps :
      (t : Outcome × Farm) (n : Action) → Keeps n → P t.1 → P (unless_thrown t n).1
  unless_thrown-keeps (Outcome.finished, s) n k h = k s h
  unless_thrown-keeps (Outcome.thrown, s) n k h = h

  and_then-Keeps : (m n : Action) → Keeps m → Keeps n → Keeps (and_then m n)
  unfolding and_then
  and_then-Keeps m n k l s h = unless_thrown-keeps (m s) n l (k s h)

  modify-Keeps : (f : Farm → Farm) → ((s : Farm) → P s → P (f s)) → Keeps (modify f)
  unfolding modify
  modify-Keeps f k = k

  finish-Keeps : Keeps finish
  unfolding finish
  finish-Keeps s h = h

  with_value-Keeps :
      {A : Type 0} (o : Option A) (m : A → Action)
      → ((a : A) → Keeps (m a))
      → Keeps (with_value o m)
  unfolding with_value
  with_value-Keeps none m k s h = h
  with_value-Keeps (some a) m k s h = k a s h

  -- The property after an action that may end in a fault.
  unfoldable pub WhereSome : Option Farm → Type 0
  WhereSome none = Unit
  WhereSome (some s) = P s

  if-where :
      (b : Bool) (o p : Option Farm) → WhereSome o → WhereSome p → WhereSome (if b then o else p)
  unfolding WhereSome
  if-where true o p h k = h
  if-where false o p h k = k

  some-where : (s : Farm) → P s → WhereSome (some s)
  unfolding WhereSome
  some-where s h = h

  pub WhereSome-some : (o : Option Farm) (s : Farm) → WhereSome o → o ≡ some s → P s
  unfolding WhereSome
  WhereSome-some none s h e = ground arith
  WhereSome-some (some t) s h e = subst P (some_inj e) h

  module _ (net : Network) (lib : Library) (config : Config) (burst_id : ℕ)
      (rest : (s t : Farm) → t.builders ≡ s.builders → t.store ≡ s.store → P s → P t)
      (filed : (c : Container) (s : Farm)
        → P s
        → P (record s { store = (add_fragment net.header c s.store).1 }))
      (l0 : (f : Fragment) (b : ℕ) → Keeps (on_builders (L1Builder.build_event lib config f b)))
      (l1 : (f : Fragment) → Keeps (on_builders (L2Builder.build_event lib config f))) where
    build_fragments-Keeps :
        (mep : Mep) (n : ℕ) → Keeps (build_fragments net lib config burst_id mep n)
    build_fragments-Keeps mep n = each-Keeps _ n (λ i. l0 (mep.fragment i) burst_id)

    invent-Keeps : (block : Block) → Keeps (invent net lib config burst_id block)
    unfolding invent
    invent-Keeps block = with_value-Keeps (net.l0_mep_of_block block block.mep_length) _ λ mep.
        with_value-Keeps (net.source_id_to_num mep.source_id) _ λ n.
          and_then-Keeps _ _ (modify-Keeps _ (λ s. rest s _ refl refl))
            (build_fragments-Keeps mep block.event_count)

    invent_blocks-Keeps : (mep : Mep) → Keeps (invent_blocks net lib config burst_id mep)
    unfolding invent_blocks
    invent_blocks-Keeps mep =
        and_then-Keeps _ _ (choose-Keeps net.is_l1_active _ _ (invent-Keeps _) finish-Keeps) (
          and_then-Keeps _ _ (choose-Keeps config.is_l2_active _ _ (invent-Keeps _) finish-Keeps)
            (choose-Keeps net.is_nstd_active _ _ (invent-Keeps _) finish-Keeps))

    process_l0-Keeps : (c : Container) (h : Header) → Keeps (process_l0 net lib config burst_id c h)
    unfolding process_l0
    process_l0-Keeps c h = with_value-Keeps _ _ λ mep.
        with_value-Keeps (net.source_id_to_num mep.source_id) _ λ n.
          and_then-Keeps _ _ (modify-Keeps _ (λ s. rest s _ refl refl)) (
            and_then-Keeps _ _
              (choose-Keeps (mep.source_id == net.source_id_l0tp) _ _ (invent_blocks-Keeps mep)
                finish-Keeps)
              (build_fragments-Keeps mep mep.number_of_fragments))

    freed-keeps : (c : Container) (s : Farm) → P s → P (free_container net c s)
    unfolding free_container
    freed-keeps c s = rest s _ refl refl

    process_cream-Keeps :
        (c : Container) (h : Header) → Keeps (process_cream net lib config burst_id c h)
    unfolding process_cream
    process_cream-Keeps c h = choose-Keeps _ _ _ (freed-keeps c) (
        with_value-Keeps _ _ λ mep. with_value-Keeps (net.l1_source_id_to_num mep.source_id) _ λ n.
          and_then-Keeps _ _ (modify-Keeps _ (λ s. rest s _ refl refl))
            (each-Keeps _ mep.number_of_fragments (λ i. l1 (mep.fragment i))))

    process_datagram-Keeps : (c : Container) → Keeps (process_datagram net lib config burst_id c)
    unfolding process_datagram
    process_datagram-Keeps c =
        choose-Keeps _ _ _ (process_l0-Keeps c _)
          (choose-Keeps _ _ _ (process_cream-Keeps c _) (freed-keeps c))

    catching-keeps :
        (c : Container) (t : Outcome × Farm) → P t.1 → P (catching net lib config burst_id c t)
    catching-keeps c (Outcome.finished, s) h = h
    catching-keeps c (Outcome.thrown, s) h = freed-keeps c s h

    after_fragment-keeps :
        (t : Added × Store) (s : Farm)
        → P (record s { store = t.1 })
        → WhereSome (after_fragment net lib config burst_id t s)
    unfolding WhereSome
    after_fragment-keeps (waiting, store) s h = h
    after_fragment-keeps (overrun, store) s h = tt
    after_fragment-keeps (assembled c, store) s h =
        catching-keeps c _ (process_datagram-Keeps c (record s { store = store }) h)

    process_arp_request-keeps :
        (arp : ArpHeader) (s : Farm) → P s → P (process_arp_request net arp s)
    unfolding process_arp_request
    process_arp_request-keeps arp s = rest s _ (ground arith) (ground arith)

    process_frame-keeps :
        (c : Container) (s : Farm) → P s → WhereSome (process_frame net lib config burst_id c s)
    unfolding process_frame
    process_frame-keeps c s h =
        let h' = net.header c.data_bytes in
        let refused = some-where (free_container net c s) (freed-keeps c s h) in
        if-where (not (h'.ether_type == 0x8) || not (h'.protocol == 17)) _ _
          (if-where (h'.ether_type == 0x608) _ _
            (some-where _ (process_arp_request-keeps (net.arp_header c.data_bytes) s h)) refused)
          (if-where (not (check_frame h' c.length)) _ _ refused (
            if-where (not (net.my_ip == h'.daddr)) _ _ refused (
              if-where h'.is_fragment _ _
                (after_fragment-keeps (add_fragment net.header c s.store) s (filed c s h))
                (some-where _ (
                  catching-keeps c (process_datagram net lib config burst_id c s)
                    (process_datagram-Keeps c s h))))))

    unless_fault-keeps :
        (o : Option Farm) (n : Farm → Option Farm)
        → WhereSome o
        → ((s : Farm) → P s → WhereSome (n s))
        → WhereSome (unless_fault net lib config burst_id o n)
    unfolding WhereSome
    unless_fault-keeps none n h k = tt
    unless_fault-keeps (some s) n h k = k s h

    execute-where :
        (frames : List (Container × Bool)) (s : Farm)
        → P s
        → WhereSome (execute net lib config burst_id frames s)
    unfolding execute
    execute-where [] s h = some-where s h
    execute-where ((c, flush) ∷ l) s h =
        unless_fault-keeps _ _
          (if-where flush _ _ (some-where _ (rest s (record s { freed = c ∷ s.freed }) refl refl h))
            (process_frame-keeps c s h))
          (execute-where l)

    -- What both builders and the filing of fragments keep, a whole task keeps.
    pub execute-keeps :
        (frames : List (Container × Bool)) (s s' : Farm)
        → P s
        → execute net lib config burst_id frames s ≡ some s'
        → P s'
    execute-keeps frames s s' h = WhereSome-some _ s' (execute-where frames s h)
