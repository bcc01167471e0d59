-- ===== src/EventBuilding/Accounting.antt =====
-- eventBuilding/: the counters and the queue against the calls that were made.
use na62_farm.Base.{
  ℕ, Bool, ◌+◌, not, some, List, [], ◌∷◌, ◌++◌, ◌≡◌, inl, inr, ◌==◌, arith, Bool-cases,
}
use mathlib.Core.List.{append_assoc}
use na62_farm.Base.Words.{u64}
use na62_farm.EventBuilding.Library.{
  Event, Fragment, EventHdr, TriggerMessage, Call, Library, Config,
}
use na62_farm.EventBuilding.State.{State, M, call}
use na62_farm.EventBuilding.Storage.{send_event}
use na62_farm.EventBuilding.L2Builder
use na62_farm.EventBuilding.Verdicts.{before_verdict}
use na62_farm.EventBuilding.L1Builder
use na62_farm.EventBuilding.QueueReceiver.{
  Receiver, response_verdict, respond, count_message, receive,
}
use na62_farm.EventBuilding.Kept.{l0_build-keeps, l1_build-keeps, receive-keeps}

-- What `SerializeEvent` gave, oldest first.
abbrev pub headers : Library → List Call → List EventHdr
headers lib [] = []
headers lib (Call.serialize_event e ∷ l) = headers lib l ++ lib.serialized l e ∷ []
headers lib (_ ∷ l) = headers lib l

abbrev pub l1_data_requests : List Call → ℕ
l1_data_requests [] = 0
l1_data_requests (Call.request_l1_data e b ∷ l) = l1_data_requests l + 1
l1_data_requests (_ ∷ l) = l1_data_requests l

-- The events freed by some calls, and those whose LKr data was requested, with the flag of the
-- request, newest first.
abbrev pub freed_events : List Call → List Event
freed_events [] = []
freed_events (Call.free_event e ∷ l) = e ∷ freed_events l
freed_events (_ ∷ l) = freed_events l

abbrev pub requested_events : List Call → List (Event × Bool)
requested_events [] = []
requested_events (Call.request_l1_data e b ∷ l) = (e, b) ∷ requested_events l
requested_events (_ ∷ l) = requested_events l

-- The headers that were taken from the queue and those in it are what serialization gave, in order,
-- and `L1Requests_` is the number of the requests sent.
pub record Accounts (lib : Library) (taken : List EventHdr) (s : State) : Type 0 where
  pub queued : taken ++ s.data_queue ≡ headers lib s.calls
  pub requested : s.l1_requests ≡ u64 (l1_data_requests s.calls)

abbrev pub Keeps : Library → List EventHdr → M Unit → Type 0
Keeps lib taken m = (s : State) → Accounts lib taken s → Accounts lib taken (m s).1

module _ (lib : Library) (config : Config) (taken : List EventHdr) (e : Event) where
  send_accepted-Accounts : Keeps lib taken (L2Builder.send_accepted lib config e)
  unfolding L2Builder.send_accepted send_event L2Builder.measure_serialization
  send_accepted-Accounts s h =
      ground (arith, append_assoc taken s.data_queue (lib.serialized s.calls e ∷ []))

  send_l1_request-Accounts : Keeps lib taken (L1Builder.send_l1_request lib config e)
  unfolding L1Builder.send_l1_request
  send_l1_request-Accounts s h = ground arith

  write_out-Accounts : Keeps lib taken (L2Builder.write_out lib config e)
  unfolding L2Builder.write_out send_event
  write_out-Accounts s h = ground (
    arith,
    append_assoc taken s.data_queue (lib.serialized (Call.set_l2_processed e 0 ∷ s.calls) e ∷ []),
  )

  run_non_z_suppressed-Accounts : Keeps lib taken (L2Builder.run_non_z_suppressed lib config e)
  unfolding L2Builder.run_non_z_suppressed
  run_non_z_suppressed-Accounts s h = ground arith

  before_verdict-Accounts :
      (s : State) → Accounts lib taken s → Accounts lib taken (before_verdict lib config e s).1
  unfolding before_verdict L2Builder.measure_l2_processing
  before_verdict-Accounts s h = ground arith

  run_l2_trigger-Accounts : Keeps lib taken (L2Builder.run_l2_trigger lib config e)
  unfolding L2Builder.run_l2_trigger before_verdict
  run_l2_trigger-Accounts s h = ground (
    arith,
    before_verdict-Accounts s h,
    send_accepted-Accounts (before_verdict lib config e s).1 (before_verdict-Accounts s h),
  )

  process_l2-Accounts : Keeps lib taken (L2Builder.process_l2 lib config e)
  unfolding L2Builder.process_l2
  process_l2-Accounts s h = ground (
    arith,
    write_out-Accounts s h,
    run_l2_trigger-Accounts s h,
    run_non_z_suppressed-Accounts s h,
  )

  l1_verdict-Accounts : (word : ℕ) → Keeps lib taken (L1Builder.l1_verdict lib config e word)
  unfolding L1Builder.l1_verdict
  l1_verdict-Accounts word s h =
      ground (arith, process_l2-Accounts s h, send_l1_request-Accounts s h)

  bypass_l1-Accounts : Keeps lib taken (L1Builder.bypass_l1 lib config e)
  unfolding L1Builder.bypass_l1 L1Builder.send_l1_request
  bypass_l1-Accounts s h = elim (Bool-cases (not (config.expected_l1_packets == 0))) [
    | inl remote ↦ rw (remote, L1Builder.bypass_l1) (ground arith)
    | inr local ↦ rw (local, L1Builder.bypass_l1) (process_l2-Accounts _ (ground arith))
  ]

  process_l1_shared-Accounts : Keeps lib taken (L1Builder.process_l1_shared lib config e)
  unfolding L1Builder.process_l1_shared
  process_l1_shared-Accounts s h = elim (Bool-cases (lib.store_succeeds s.calls e)) [
    | inl holds ↦ rw (holds, L1Builder.process_l1_shared) (ground arith)
    | inr fails ↦ rw (fails, L1Builder.process_l1_shared) (bypass_l1-Accounts _ (ground arith))
  ]

  process_l1_local-Accounts : Keeps lib taken (L1Builder.process_l1_local lib config e)
  unfolding L1Builder.process_l1_local L1Builder.measure_l1_processing
  process_l1_local-Accounts s h = l1_verdict-Accounts _ _ (ground arith)

  process_l1-Accounts : Keeps lib taken (L1Builder.process_l1 lib config e)
  unfolding L1Builder.process_l1
  process_l1-Accounts s h =
      ground (arith, process_l1_shared-Accounts s h, process_l1_local-Accounts s h)

  add_l0_fragment-Accounts :
      (f : Fragment) (burst_id : ℕ)
      → Keeps lib taken (L1Builder.add_l0_fragment lib config e f burst_id)
  unfolding L1Builder.add_l0_fragment L1Builder.measure_l0_building
  add_l0_fragment-Accounts f b s h = elim (Bool-cases (lib.l0_complete s.calls e f b)) [
    | inl holds ↦ rw (holds, L1Builder.add_l0_fragment) (process_l1-Accounts _ (ground arith))
    | inr fails ↦ rw (fails, L1Builder.add_l0_fragment) (ground arith)
  ]

  add_l1_fragment-Accounts :
      (f : Fragment) → Keeps lib taken (L2Builder.add_l1_fragment lib config e f)
  unfolding L2Builder.add_l1_fragment L2Builder.measure_l1_building
  add_l1_fragment-Accounts f s h = elim (Bool-cases (lib.l1_complete s.calls e f)) [
    | inl holds ↦ rw (holds, L2Builder.add_l1_fragment) (process_l2-Accounts _ (ground arith))
    | inr fails ↦ rw (fails, L2Builder.add_l1_fragment) (ground arith)
  ]

  respond-Accounts : (message : TriggerMessage) → Keeps lib taken (respond lib config message e)
  unfolding respond response_verdict L1Builder.send_l1_request
  respond-Accounts message s h = elim (Bool-cases (not (message.l1_trigger_type_word == 0))) [
    | inl holds ↦ elim (Bool-cases (not (config.expected_l1_packets == 0))) [
      | inl remote ↦ rw (holds, remote, respond) (ground arith)
      | inr local ↦ rw (holds, local, respond) (process_l2-Accounts _ (ground arith))
    ]
    | inr fails ↦ rw (fails, respond) (ground arith)
  ]

module _ (lib : Library) (config : Config) (taken : List EventHdr) where
  delete_fragment-Accounts : (f : Fragment) → Keeps lib taken (call (Call.delete_fragment f))
  delete_fragment-Accounts f s h = ground arith

  count_message-Accounts :
      (message : TriggerMessage) (r : Receiver)
      → Accounts lib taken r.builders
      → Accounts lib taken (count_message lib config message r).builders
  unfolding count_message
  count_message-Accounts message r h = ground arith

  pub l0_build-Accounts :
      (f : Fragment) (burst_id : ℕ) → Keeps lib taken (L1Builder.build_event lib config f burst_id)
  l0_build-Accounts =
      l0_build-keeps lib config (Accounts lib taken) delete_fragment-Accounts
        (add_l0_fragment-Accounts lib config taken) (add_l1_fragment-Accounts lib config taken)
        count_message-Accounts (λ m e. respond-Accounts lib config taken e m)

  pub l1_build-Accounts : (f : Fragment) → Keeps lib taken (L2Builder.build_event lib config f)
  l1_build-Accounts =
      l1_build-keeps lib config (Accounts lib taken) delete_fragment-Accounts
        (add_l0_fragment-Accounts lib config taken) (add_l1_fragment-Accounts lib config taken)
        count_message-Accounts (λ m e. respond-Accounts lib config taken e m)

  -- An answer of a trigger process keeps the accounts.
  pub receive-Accounts :
      (message : TriggerMessage) (r r' : Receiver)
      → receive lib config message r ≡ some r'
      → Accounts lib taken r.builders
      → Accounts lib taken r'.builders
  receive-Accounts =
      receive-keeps lib config (Accounts lib taken) delete_fragment-Accounts
        (add_l0_fragment-Accounts lib config taken) (add_l1_fragment-Accounts lib config taken)
        count_message-Accounts (λ m e. respond-Accounts lib config taken e m)
