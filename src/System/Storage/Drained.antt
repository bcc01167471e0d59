-- ===== src/System/Storage/Drained.antt =====
-- socket/TaskProcessor.cpp and eventBuilding/StorageHandler.cpp: the threads work off the queue of
-- tasks and the queue of events.
use na62_farm.Base.{
  ℕ, ◌≤◌, ◌<◌, ◌≡◌, ◌≢◌, refl, sym, ap, ◌∙◌, subst, true, false, Option, none, some, List, [], ◌∷◌,
  ◌++◌, ◌⊎◌, inl, inr, All, map, length, arith,
}
use mathlib.Core.List.{append-nil, append_assoc}
use na62_farm.EventBuilding.Library.{EventHdr, Library, Config}
use na62_farm.FrameTasks.Network.{Network}
use na62_farm.Mergers.{
  Mergers, Attempt, Sending, delivered, Outcomes, StorageTurn, send_event_data, store_events,
}
use na62_farm.Mergers.Drained.{Sends, IsDone, send_event_data-IsDone, store_events-AllDelivered}
use na62_farm.System.{Program, Reach, start, later}
use na62_farm.System.Progress.{work, IsOfProcessors, HasFault, Program-drains}
use na62_farm.System.Storage.{Plant, next_data, worked, begun, onward}
use na62_farm.System.Storage.Loops.{
  IsOver, with_storage, Reached, Sent, attempts-Reached, store_events-Reached,
}

abbrev as_delivered : List EventHdr → Outcomes
as_delivered = map (λ event. (event, Sending.done))

-- ZeroMQ takes the message at once.
abbrev delivery : Attempt
delivery = record { is_running = true; result = delivered; connections = [] }

deliveries : List EventHdr → List StorageTurn
deliveries [] = []
deliveries (event ∷ l) =
    record { is_running = true; message_fails = false; attempts = delivery ∷ [] } ∷ deliveries l

deliveries-Sends : (l : List EventHdr) → All Sends (deliveries l)
unfolding deliveries
deliveries-Sends [] = tt
deliveries-Sends (event ∷ l) = ((refl, refl, (refl, inl refl)), deliveries-Sends l)

deliveries-enough : (l : List EventHdr) → length l ≤ length (deliveries l)
unfolding deliveries
deliveries-enough [] = omega arith
deliveries-enough (event ∷ l) = omega (arith, deliveries-enough l)

as_delivered-IsOver : (l : List EventHdr) → All IsOver (as_delivered l)
as_delivered-IsOver [] = tt
as_delivered-IsOver (event ∷ l) = (tt, as_delivered-IsOver l)

as_delivered-append :
    (a b : List EventHdr) → as_delivered (a ++ b) ≡ as_delivered a ++ as_delivered b
as_delivered-append [] b = refl
as_delivered-append (event ∷ a) b = ap (λ l. (event, Sending.done) ∷ l) (as_delivered-append a b)

module _ (mtu : ℕ) (net : Network) (lib : Library) (config : Config) where
  -- What the task processors do, they do beside the storage thread.
  of_processors :
      (p : Plant) (before : Outcomes) (r : Program) (run : Reach mtu net lib config p.program r)
      → IsOfProcessors mtu net lib config run
      → Reached mtu net lib config p before before (record p { program = r })
  of_processors p before r start own = (begun, refl, tt)
  of_processors p before r (later {q = m} run step) own =
      let (run', e, own') = of_processors p before m run own.1 in
      (onward run' (worked r step), e, (own.0, own'))

  module _ (p : Plant) (before : Outcomes) (r : Program) where
    -- With some more events delivered, the storage thread is idle and a socket is open.
    abbrev IsIdle : List EventHdr → List EventHdr → Type 0
    IsIdle queue events =
        (m : Mergers) × Reached mtu net lib config p before (before ++ as_delivered events)
          (with_storage r queue m none)
        × (0 < length m.merger_sockets)

    Sent-IsIdle :
        (queue : List EventHdr) (event : EventHdr) (s : Sending × Mergers)
        → IsDone s
        → Sent mtu net lib config p before r queue before event s
        → IsIdle queue (event ∷ [])
    unfolding next_data
    Sent-IsIdle queue event (Sending.done, m) done h = (m, h, done.1)
    Sent-IsIdle queue event (Sending.abandoned, m) done h = absurd (ground arith)
    Sent-IsIdle queue event (Sending.unfinished, m) done h = absurd (ground arith)
    Sent-IsIdle queue event (Sending.fault, m) done h = absurd (ground arith)

    -- It hands over the event that it holds, if any, and then those of the queue.
    hand_over :
        (queue : List EventHdr) (data_hdr : Option EventHdr) (m : Mergers)
        → 0 < length m.merger_sockets
        → Reached mtu net lib config p before before (with_storage r queue m data_hdr)
        → (events : List EventHdr) × IsIdle queue events
    hand_over queue none m some_open (run, e, own) =
        ([], (m, (run, e ∙ sym (append-nil before), own), some_open))
    hand_over queue (some event) m some_open h =
        let (done, still_open) =
          send_event_data-IsDone event (delivery ∷ []) m some_open (refl, inl refl) in
        let fine : (send_event_data event (delivery ∷ []) m).0 ≢ Sending.fault = λ e. absurd (cc) in
        (
          event ∷ [],
          Sent-IsIdle queue event _ (done, still_open)
              (attempts-Reached mtu net lib config p before r queue before event (delivery ∷ []) m
                fine h),
        )

    -- The queue is empty, and some more events were delivered.
    abbrev pub IsServed : List EventHdr → Type 0
    IsServed events =
        (m : Mergers) × Reached mtu net lib config p before (before ++ as_delivered events)
          (with_storage r [] m none)

    work_off : (queue events : List EventHdr) → IsIdle queue events → IsServed (events ++ queue)
    work_off queue events (m, h, some_open) =
        let turns = deliveries queue in
        let (emptied, all_done) =
          store_events-AllDelivered turns queue m some_open (deliveries-Sends queue)
            (deliveries-enough queue) in
        let over : All IsOver (store_events turns queue m).0 =
          subst (All IsOver) (sym all_done) (as_delivered-IsOver queue) in
        let (run, e, own) =
          store_events-Reached mtu net lib config p before r turns queue
            (before ++ as_delivered events) m over h in
        let outcomes =
          e
          ∙ append_assoc before (as_delivered events) (store_events turns queue m).0
          ∙ ap (λ l. before ++ l)
              (ap (λ l. as_delivered events ++ l) all_done
                ∙ sym (as_delivered-append events queue)) in
        (
          _,
          subst
              (λ q.
                Reached mtu net lib config p before (before ++ as_delivered (events ++ queue))
                  (with_storage r q (store_events turns queue m).2 none))
              emptied (run, outcomes, own),
        )

  -- No deadlock of the threads together: with at least one task processor and one socket to a merger,
  -- the task processors and the storage thread can go on by their own steps, whatever is in the two
  -- queues and at the threads, until every task is popped, handled and deleted, the queue of events is
  -- empty, the storage thread holds no event, and each event that it popped on the way was delivered,
  -- as far as ZeroMQ takes the messages and messages can be made; unless the processors get to a
  -- state in which the next frame of one of them makes a copy that leaves its buffers.
  pub Plant-drains :
      (p : Plant) (before : Outcomes)
      → 0 < length p.program.workers
      → 0 < length p.mergers.merger_sockets
      → (r : Program) × (((work r ≡ 0) × (events : List EventHdr) × IsServed p before r events)
          ⊎ (Reached mtu net lib config p before before (record p { program = r })
              × HasFault mtu net lib config r))
  Plant-drains p before some_worker some_open =
      let (r, run, own, ended) = Program-drains mtu net lib config p.program some_worker in
      let reached = of_processors p before r run own in
      (
        r,
        elim ended [
          | inl finished ↦
              let queue = r.farm.builders.data_queue in
              let (events, idle) =
                hand_over p before r queue p.data_hdr p.mergers some_open reached in
              inl (finished, events ++ queue, work_off p before r queue events idle)
          | inr fault ↦ inr (reached, fault)
        ],
      )
