-- ===== src/EventBuilding/Protocol/L1.antt =====
-- eventBuilding/L1Builder.cpp in the life of an event.
use na62_farm.Base.{ℕ, true, some, ◌≡◌, refl, ◌==◌, ◌⊎◌, inl, if◌then◌else◌, arith}
use na62_farm.Base.Words.{u8}
use na62_farm.EventBuilding.Library.{Event, Call, Library, Config}
use na62_farm.EventBuilding.State.{State, M, ◌>>=◌, ◌>>◌, pure, call, ask, when}
use na62_farm.EventBuilding.L1Builder.{
  send_l1_request, measure_l1_processing, bypass_l1, process_l1_shared, l0_l1_trigger, bypass_word,
  l1_verdict, process_l1_local, process_l1,
}
use na62_farm.EventBuilding.Protocol.{Phase, building, l1_done, requested, freed, phase, Takes}
use na62_farm.EventBuilding.Protocol.L2.{process_l2-Takes}

-- An action takes an event to one of two phases, and leaves every other event where it is.
abbrev pub TakesToEither : Event → Phase → Phase → Phase → M Unit → Type 0
TakesToEither e p q r m =
    (s : State)
    → phase e s.calls ≡ some p
    → (x : Event)
    → (phase x (m s).1.calls ≡ (if e == x then some q else phase x s.calls))
      ⊎ (phase x (m s).1.calls ≡ (if e == x then some r else phase x s.calls))

module _ (lib : Library) (config : Config) (e : Event) where
  pub send_l1_request-Takes : Takes e l1_done requested (send_l1_request lib config e)
  unfolding send_l1_request
  send_l1_request-Takes s h x = ground arith

  l1_verdict-Takes :
      (word : ℕ) → TakesToEither e l1_done requested freed (l1_verdict lib config e word)
  unfolding l1_verdict
  l1_verdict-Takes word s h x =
      ground
        (arith, send_l1_request-Takes s h x, process_l2-Takes lib config e l1_done (inl refl) s h x)

  -- `processL1` up to the verdict, and up to the request for an event that did not fit.
  before_verdict : M ℕ
  before_verdict = do
    l0_word ← ask (λ h. u8 (lib.l0_trigger_type_word h e))
    word ← ask (λ h. u8 (lib.l1_trigger h e))
    call (Call.l1_compute e)
    call (Call.update_l1_statistics e word)
    call (Call.set_l1_processed e (l0_l1_trigger l0_word word))
    when config.measure_time (measure_l1_processing lib config e)
    pure word

  before_verdict-Takes : Takes e building l1_done before_verdict
  unfolding before_verdict measure_l1_processing
  before_verdict-Takes s h x = ground arith

  process_l1_local-Takes : TakesToEither e building requested freed (process_l1_local lib config e)
  unfolding process_l1_local before_verdict
  process_l1_local-Takes s h x = ground (
    arith,
    before_verdict-Takes s h x,
    before_verdict-Takes s h e,
    l1_verdict-Takes (before_verdict s).0 (before_verdict s).1
        (ground (arith, before_verdict-Takes s h e)) x,
  )

  before_bypass : M Unit
  before_bypass = do
    l0_word ← ask (λ h. u8 (lib.l0_trigger_type_word h e))
    call (Call.update_l1_statistics e bypass_word)
    call (Call.set_l1_processed e (l0_l1_trigger l0_word bypass_word))

  before_bypass-Takes : Takes e building l1_done before_bypass
  unfolding before_bypass
  before_bypass-Takes s h x = ground arith

  bypass_l1-Takes : TakesToEither e building requested freed (bypass_l1 lib config e)
  unfolding bypass_l1 before_bypass
  bypass_l1-Takes s h x = ground (
    arith,
    before_bypass-Takes s h x,
    before_bypass-Takes s h e,
    send_l1_request-Takes (before_bypass s).1 (ground (arith, before_bypass-Takes s h e)) x,
    send_l1_request-Takes (before_bypass s).1 (ground (arith, before_bypass-Takes s h e)) e,
    process_l2-Takes lib config e l1_done (inl refl) (before_bypass s).1
        (ground (arith, before_bypass-Takes s h e)) x,
  )

-- `processL1` keeps to the protocol: a built event ends with its data requested from the LKr, or
-- freed, or, in a build with the shared memory, still as built, waiting for the trigger process; no
-- other event changes its phase.
pub process_l1-outcomes :
    (lib : Library) (config : Config) (e : Event) (s : State)
    → phase e s.calls ≡ some building
    → (x : Event)
    → let after = phase x (process_l1 lib config e s).1.calls in
      let before = phase x s.calls in
      (after ≡ (if e == x then some requested else before))
      ⊎ (after ≡ (if e == x then some freed else before))
      ⊎ ((config.use_shared_memory ≡ true) × (after ≡ (if e == x then some building else before)))
unfolding process_l1 process_l1_shared
process_l1-outcomes lib config e s h x = ground (
  arith,
  process_l1_local-Takes lib config e s h x,
  bypass_l1-Takes lib config e (call (Call.store_l1_event e) s).1 (ground arith) x,
)
