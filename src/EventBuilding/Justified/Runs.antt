-- ===== src/EventBuilding/Justified/Runs.antt =====
-- eventBuilding/ and SharedMemory/QueueReceiver.cpp: fragments and answers make no call without a
-- reason.
use na62_farm.Base.{ℕ, some, ◌≡◌, arith}
use na62_farm.EventBuilding.Library.{Fragment, TriggerMessage, Call, Library, Config}
use na62_farm.EventBuilding.State.{call}
use na62_farm.EventBuilding.L2Builder
use na62_farm.EventBuilding.L1Builder
use na62_farm.EventBuilding.QueueReceiver.{Receiver, count_message, receive}
use na62_farm.EventBuilding.Justified.{IsJustified, Keeps}
use na62_farm.EventBuilding.Justified.Levels.{
  add_l0_fragment-IsJustified, add_l1_fragment-IsJustified, respond-IsJustified,
}
use na62_farm.EventBuilding.Kept.{l0_build-keeps, l1_build-keeps, receive-keeps}

module _ (lib : Library) (config : Config) where
  delete_fragment-IsJustified : (f : Fragment) → Keeps lib config (call (Call.delete_fragment f))
  delete_fragment-IsJustified f s h = h

  count_message-IsJustified :
      (message : TriggerMessage) (r : Receiver)
      → IsJustified lib config r.builders.calls
      → IsJustified lib config (count_message lib config message r).builders.calls
  unfolding count_message
  count_message-IsJustified message r h = ground arith

  pub l0_build-IsJustified :
      (f : Fragment) (burst_id : ℕ) → Keeps lib config (L1Builder.build_event lib config f burst_id)
  l0_build-IsJustified =
      l0_build-keeps lib config (λ s. IsJustified lib config s.calls) delete_fragment-IsJustified
        (add_l0_fragment-IsJustified lib config) (add_l1_fragment-IsJustified lib config)
        count_message-IsJustified (λ m e. respond-IsJustified lib config e m)

  pub l1_build-IsJustified : (f : Fragment) → Keeps lib config (L2Builder.build_event lib config f)
  l1_build-IsJustified =
      l1_build-keeps lib config (λ s. IsJustified lib config s.calls) delete_fragment-IsJustified
        (add_l0_fragment-IsJustified lib config) (add_l1_fragment-IsJustified lib config)
        count_message-IsJustified (λ m e. respond-IsJustified lib config e m)

  pub receive-IsJustified :
      (message : TriggerMessage) (r r' : Receiver)
      → receive lib config message r ≡ some r'
      → IsJustified lib config r.builders.calls
      → IsJustified lib config r'.builders.calls
  receive-IsJustified =
      receive-keeps lib config (λ s. IsJustified lib config s.calls) delete_fragment-IsJustified
        (add_l0_fragment-IsJustified lib config) (add_l1_fragment-IsJustified lib config)
        count_message-IsJustified (λ m e. respond-IsJustified lib config e m)
