-- ===== src/System/Safety.antt =====
-- What holds of the farm in every state that the threads reach.
use na62_farm.Base.{ℕ, ◌≡◌, subst, sym, some, Bool, List}
use na62_farm.Frame.{Container}
use na62_farm.EventBuilding.Library.{EventHdr, TriggerMessage, Library, Config}
use na62_farm.EventBuilding.QueueReceiver.{Receiver, receive}
use na62_farm.EventBuilding.Accounting.{Accounts, receive-Accounts}
use na62_farm.EventBuilding.Protocol.Assumed.{ReportsOnce, InProtocol, IsPending}
use na62_farm.EventBuilding.Protocol.Responses.{receive-InProtocol}
use na62_farm.Fragments.Invariant.{IsSettled}
use na62_farm.FrameTasks.Network.{Network}
use na62_farm.FrameTasks.State.{Farm}
use na62_farm.FrameTasks.Process.{execute}
use na62_farm.FrameTasks.Runs.{
  execute-InProtocol, execute-Accounts, execute-IsSettled, execute-IsJustified,
}
use na62_farm.Burst.Finished.{EndOfBurst, on_burst_finished}
use na62_farm.Burst.Fresh.{on_burst_finished-Accounts, on_burst_finished-buffers}
use na62_farm.Burst.Justified.{on_burst_finished-IsJustified}
use na62_farm.EventBuilding.Justified.{IsJustified}
use na62_farm.EventBuilding.Justified.Runs.{receive-IsJustified}
use na62_farm.Burst.Dropping.{IsPool, on_burst_finished-InProtocol}
use na62_farm.System.{
  Program, receiver_of, push_task, pop_task, frame_done, delete_task, take_answer, gathered, popped,
  handled, deleted, answered, burst_finished, Reach, start, later,
}

module _ (mtu : ℕ) (net : Network) (lib : Library) (config : Config) where
  -- So it is at every answer of a trigger process and at every end of a burst: the process answers for
  -- an event that waits for it, and the pool holds each unfinished event once.
  abbrev pub IsHonest : {p q : Program} → Reach mtu net lib config p q → Type 0
  IsHonest start = Unit
  IsHonest (later {q = m} run (answered message r e)) =
      IsPending lib config message (receiver_of m) × IsHonest run
  IsHonest (later {q = m} run (burst_finished end e)) =
      IsPool m.farm.builders.calls end.pool × IsHonest run
  IsHonest (later run _) = IsHonest run

  -- Whatever frames the packet handlers receive, whichever of the task processors handle them and
  -- however their steps, those of the answers and the ends of bursts interleave: no event is freed
  -- twice, used after it was freed or triggered before it is built, and none is written before L2 but
  -- an unfinished event that the end of a burst drops next, if that was so before. The library is
  -- assumed to report an event as complete only while it is being built, or only while LKr data is
  -- expected, a trigger process to answer only for an event that waits for it, and the pool to hold
  -- an event in one slot at most and to call it unfinished only while it is being built or waits for
  -- LKr data.
  pub Reach-InProtocol :
      {p q : Program} (run : Reach mtu net lib config p q)
      → ReportsOnce lib
      → IsHonest run
      → InProtocol p.farm.builders
      → InProtocol q.farm.builders
  unfolding push_task pop_task frame_done delete_task take_answer
  Reach-InProtocol start once honest h = h
  Reach-InProtocol (later run (gathered polls c frames b e)) once honest h =
      Reach-InProtocol run once honest h
  Reach-InProtocol (later run (popped before after t queue e d)) once honest h =
      Reach-InProtocol run once honest h
  Reach-InProtocol (later {q = m} run (handled before after t c rest flush farm e d f)) once honest
        h =
      execute-InProtocol net lib config t.burst_id _ m.farm farm once
        (Reach-InProtocol run once honest h) f
  Reach-InProtocol (later run (deleted before after t e d)) once honest h =
      Reach-InProtocol run once honest h
  Reach-InProtocol (later {q = m} run (answered message r e)) once honest h =
      receive-InProtocol lib config message (receiver_of m) honest.0
        (Reach-InProtocol run once honest.1 h) r e
  Reach-InProtocol (later {q = m} run (burst_finished end e)) once honest h =
      on_burst_finished-InProtocol net lib config end m.farm honest.0
        (Reach-InProtocol run once honest.1 h)

  module _ (P : Farm → Type 0)
      (frame : (burst_id : ℕ) (frames : List (Container × Bool)) (s t : Farm)
        → P s
        → execute net lib config burst_id frames s ≡ some t
        → P t)
      (answer : (message : TriggerMessage) (r r' : Receiver) (s : Farm)
        → receive lib config message r ≡ some r'
        → P (record s { builders = r.builders })
        → P (record s { builders = r'.builders }))
      (end_of_burst : (end : EndOfBurst) (s : Farm)
        → P s
        → P (on_burst_finished net lib config end s).farm) where
    -- What frames, answers and ends of bursts keep, every run keeps.
    Reach-keeps : {p q : Program} → Reach mtu net lib config p q → P p.farm → P q.farm
    unfolding push_task pop_task frame_done delete_task take_answer
    Reach-keeps start h = h
    Reach-keeps (later run (gathered polls c frames b e)) h = Reach-keeps run h
    Reach-keeps (later run (popped before after t queue e d)) h = Reach-keeps run h
    Reach-keeps (later {q = m} run (handled before after t c rest flush farm e d f)) h =
        frame t.burst_id _ m.farm farm (Reach-keeps run h) f
    Reach-keeps (later run (deleted before after t e d)) h = Reach-keeps run h
    Reach-keeps (later {q = m} run (answered message r e)) h =
        answer message (receiver_of m) r m.farm e (Reach-keeps run h)
    Reach-keeps (later {q = m} run (burst_finished end e)) h =
        end_of_burst end m.farm (Reach-keeps run h)

  -- In any interleaving of the threads, ends of bursts included: the headers that were taken from the
  -- queue of the storage handler and those in it are what serialization gave, in order, and
  -- `L1Requests_` is the number of the requests sent, modulo 2^64, if that was so before.
  pub Reach-Accounts :
      (taken : List EventHdr) {p q : Program}
      → Reach mtu net lib config p q
      → Accounts lib taken p.farm.builders
      → Accounts lib taken q.farm.builders
  Reach-Accounts taken =
      Reach-keeps (λ s. Accounts lib taken s.builders)
        (λ b frames s t h e. execute-Accounts net lib config taken b frames s t h e)
        (λ message r r' s e h. receive-Accounts lib config taken message r r' e h)
        (λ end. on_burst_finished-Accounts net lib config end taken)

  -- In any interleaving of the threads no key of the store of IP fragments holds two final fragments,
  -- if that was so before.
  pub Reach-IsSettled :
      {p q : Program}
      → Reach mtu net lib config p q
      → IsSettled net.header p.farm.store
      → IsSettled net.header q.farm.store
  Reach-IsSettled =
      Reach-keeps (λ s. IsSettled net.header s.store)
        (λ b frames s t h e. execute-IsSettled net lib config b frames s t h e)
        (λ message r r' s e h. h)
        (λ end s.
          subst (IsSettled net.header) (sym (on_burst_finished-buffers net lib config end s).0))

  -- In any interleaving of the threads, ends of bursts included, an event is written only if L2 has
  -- accepted it and waits for no more data of it, or L2 is switched off, or the end of a burst drops it
  -- next; and its LKr data is requested only if L1 has accepted it, there are sources of such data, and
  -- with zero suppression exactly if the event and the option ask for it; if that was so before.
  pub Reach-IsJustified :
      {p q : Program}
      → Reach mtu net lib config p q
      → IsJustified lib config p.farm.builders.calls
      → IsJustified lib config q.farm.builders.calls
  Reach-IsJustified =
      Reach-keeps (λ s. IsJustified lib config s.builders.calls)
        (λ b frames s t h e. execute-IsJustified net lib config b frames s t h e)
        (λ message r r' s e h. receive-IsJustified lib config message r r' e h)
        (on_burst_finished-IsJustified net lib config)
