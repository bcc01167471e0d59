-- ===== src/EventBuilding/Steps.antt =====
-- The program as a step relation: the threads of the farm as interleaved calls on one state.
use na62_farm.Base.{ℕ, some, ◌≡◌}
use na62_farm.EventBuilding.Library.{Fragment, TriggerMessage, Library, Config}
use na62_farm.EventBuilding.State.{State}
use na62_farm.EventBuilding.L2Builder
use na62_farm.EventBuilding.L1Builder
use na62_farm.EventBuilding.QueueReceiver.{Receiver, receive}

-- One step of the program: a fragment of the first level with a burst, a fragment of the LKr data, or
-- the answer of a trigger process.
pub data Step (lib : Library) (config : Config) (r : Receiver) : Receiver → Type 0 where
  l0_arrives :
      (f : Fragment) (burst_id : ℕ)
      → Step lib config r
          (record r { builders = (L1Builder.build_event lib config f burst_id r.builders).1 })
  l1_arrives :
      (f : Fragment)
      → Step lib config r
          (record r { builders = (L2Builder.build_event lib config f r.builders).1 })
  answered :
      (message : TriggerMessage) (r' : Receiver)
      → receive lib config message r ≡ some r'
      → Step lib config r r'

pub data Run (lib : Library) (config : Config) (r : Receiver) : Receiver → Type 0 where
  here : Run lib config r r
  then_step :
      {r' r'' : Receiver} → Run lib config r r' → Step lib config r' r'' → Run lib config r r''

module _ (lib : Library) (config : Config) (P : State → Type 0)
    (l0 : (f : Fragment) (burst_id : ℕ) (s : State)
      → P s
      → P (L1Builder.build_event lib config f burst_id s).1)
    (l1 : (f : Fragment) (s : State) → P s → P (L2Builder.build_event lib config f s).1)
    (answer : (message : TriggerMessage) (r r' : Receiver)
      → receive lib config message r ≡ some r'
      → P r.builders
      → P r'.builders) where
  -- What the three kinds of step keep, every run keeps.
  pub Run-keeps : {r r' : Receiver} → Run lib config r r' → P r.builders → P r'.builders
  Run-keeps here h = h
  Run-keeps (then_step {r' = m} run (l0_arrives f b)) h = l0 f b m.builders (Run-keeps run h)
  Run-keeps (then_step {r' = m} run (l1_arrives f)) h = l1 f m.builders (Run-keeps run h)
  Run-keeps (then_step {r' = m} run (answered message r' e)) h =
      answer message m r' e (Run-keeps run h)
