-- ===== src/FrameTasks/Runs.antt =====
-- socket/HandleFrameTask.cpp: what holds of the events after any sequence of received frames.
use na62_farm.Base.{ℕ, Bool, some, List, ◌≡◌, sym, subst}
use na62_farm.Frame.{Container}
use na62_farm.EventBuilding.Library.{EventHdr, Library, Config}
use na62_farm.EventBuilding.Justified.{IsJustified}
use na62_farm.EventBuilding.Justified.Runs.{l0_build-IsJustified, l1_build-IsJustified}
use na62_farm.EventBuilding.Accounting.{Accounts, l0_build-Accounts, l1_build-Accounts}
use na62_farm.EventBuilding.Protocol.Assumed.{ReportsOnce, InProtocol}
use na62_farm.EventBuilding.Protocol.Runs.{l0_build-InProtocol, l1_build-InProtocol}
use na62_farm.Fragments.Invariant.{IsSettled, add_fragment-IsSettled}
use na62_farm.FrameTasks.Network.{Network}
use na62_farm.FrameTasks.State.{Farm, on_builders}
use na62_farm.FrameTasks.Process.{execute}
use na62_farm.FrameTasks.Carried.{execute-keeps}

-- Whatever frames a task handles, broken or fragmented ones and ones that throw included, and
-- whichever of them are dropped at the end of a burst: no event is misused, as far as the library
-- reports an event as complete only while it is being built, or only while LKr data is expected.
pub execute-InProtocol :
    (net : Network) (lib : Library) (config : Config) (burst_id : ℕ)
    (frames : List (Container × Bool)) (s s' : Farm)
    → ReportsOnce lib
    → InProtocol s.builders
    → execute net lib config burst_id frames s ≡ some s'
    → InProtocol s'.builders
unfolding on_builders
execute-InProtocol net lib config burst_id frames s s' once h e =
    execute-keeps (λ t. InProtocol t.builders) net lib config burst_id
      (λ t t' b _. subst InProtocol (sym b)) (λ c t k. k)
      (λ f b t. l0_build-InProtocol lib config once f b t.builders)
      (λ f t. l1_build-InProtocol lib config once f t.builders) frames s s' h e

-- After any such task the headers that were taken from the queue of the storage handler and those in
-- it are what serialization gave, in order, and `L1Requests_` is the number of the requests sent, if that was so before.
pub execute-Accounts :
    (net : Network) (lib : Library) (config : Config) (taken : List EventHdr) (burst_id : ℕ)
    (frames : List (Container × Bool)) (s s' : Farm)
    → Accounts lib taken s.builders
    → execute net lib config burst_id frames s ≡ some s'
    → Accounts lib taken s'.builders
unfolding on_builders
execute-Accounts net lib config taken burst_id frames s s' h e =
    execute-keeps (λ t. Accounts lib taken t.builders) net lib config burst_id
      (λ t t' b _. subst (Accounts lib taken) (sym b)) (λ c t k. k)
      (λ f b t. l0_build-Accounts lib config taken f b t.builders)
      (λ f t. l1_build-Accounts lib config taken f t.builders) frames s s' h e

-- After any such task an event was written, or its LKr data requested, only with a reason, if that was
-- so before.
pub execute-IsJustified :
    (net : Network) (lib : Library) (config : Config) (burst_id : ℕ)
    (frames : List (Container × Bool)) (s s' : Farm)
    → IsJustified lib config s.builders.calls
    → execute net lib config burst_id frames s ≡ some s'
    → IsJustified lib config s'.builders.calls
unfolding on_builders
execute-IsJustified net lib config burst_id frames s s' h e =
    execute-keeps (λ t. IsJustified lib config t.builders.calls) net lib config burst_id
      (λ t t' b _. subst (λ r. IsJustified lib config r.calls) (sym b)) (λ c t k. k)
      (λ f b t. l0_build-IsJustified lib config f b t.builders)
      (λ f t. l1_build-IsJustified lib config f t.builders) frames s s' h e

-- After any such task, however broken its fragments are, no key of the store holds two final
-- fragments, if that was so before.
pub execute-IsSettled :
    (net : Network) (lib : Library) (config : Config) (burst_id : ℕ)
    (frames : List (Container × Bool)) (s s' : Farm)
    → IsSettled net.header s.store
    → execute net lib config burst_id frames s ≡ some s'
    → IsSettled net.header s'.store
unfolding on_builders
execute-IsSettled net lib config burst_id frames s s' h e =
    execute-keeps (λ t. IsSettled net.header t.store) net lib config burst_id
      (λ t t' _ q. subst (IsSettled net.header) (sym q))
      (λ c t. add_fragment-IsSettled net.header c t.store) (λ f b t k. k) (λ f t k. k) frames s s' h
      e
