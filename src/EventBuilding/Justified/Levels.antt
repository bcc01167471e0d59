-- ===== src/EventBuilding/Justified/Levels.antt =====
-- eventBuilding/L1Builder.cpp, eventBuilding/L2Builder.cpp and SharedMemory/QueueReceiver.cpp: each
-- operation on an event writes it, or requests its data, for a reason.
use na62_farm.Base.{
  ℕ, ◌/◌, ◌<◌, true, false, not, List, ◌∷◌, ◌≡◌, inl, inr, ◌==◌, arith, Bool-cases, ==_self,
}
use na62_farm.Base.Words.{u8, bit_or-shifted}
use na62_farm.EventBuilding.Library.{Event, Fragment, TriggerMessage, Call, Library, Config}
use na62_farm.EventBuilding.State.{◌>>◌, ◌>>=◌, State, M, call, ask, choose, skip}
use na62_farm.EventBuilding.Storage.{send_event}
use na62_farm.EventBuilding.L2Builder
use na62_farm.EventBuilding.Verdicts.{before_verdict}
use na62_farm.EventBuilding.L1Builder
use na62_farm.EventBuilding.L1Builder.{l0_l1_trigger, bypass_word}
use na62_farm.EventBuilding.QueueReceiver.{response_verdict, respond}
use na62_farm.EventBuilding.Justified.{
  last_l1_word, MayWrite, MayRequest, IsJustified, Keeps, choose-IsJustified,
}

module _ (lib : Library) (config : Config) where
  module _ (e : Event) where
    send_accepted-IsJustified :
        (s : State)
        → MayWrite lib config s.calls e
        → IsJustified lib config s.calls
        → IsJustified lib config (L2Builder.send_accepted lib config e s).1.calls
    unfolding L2Builder.send_accepted send_event L2Builder.measure_serialization
    send_accepted-IsJustified s may h = ground arith

    send_l1_request-IsJustified :
        (s : State)
        → MayRequest config s.calls e
        → IsJustified lib config s.calls
        → IsJustified lib config (L1Builder.send_l1_request lib config e s).1.calls
    unfolding L1Builder.send_l1_request
    send_l1_request-IsJustified s may h = ground arith

    write_out-IsJustified :
        (s : State)
        → config.is_l2_active ≡ false
        → IsJustified lib config s.calls
        → IsJustified lib config (L2Builder.write_out lib config e s).1.calls
    unfolding L2Builder.write_out send_event
    write_out-IsJustified s off h = (inl off, h)

    run_non_z_suppressed-IsJustified :
        Keeps lib config (L2Builder.run_non_z_suppressed lib config e)
    unfolding L2Builder.run_non_z_suppressed
    run_non_z_suppressed-IsJustified s h = ground arith

    before_verdict-IsJustified :
        (s : State)
        → IsJustified lib config s.calls
        → IsJustified lib config (before_verdict lib config e s).1.calls
    unfolding before_verdict L2Builder.measure_l2_processing
    before_verdict-IsJustified s h = ground arith

    before_verdict-MayWrite :
        (s : State)
        → (before_verdict lib config e s).0 ≡ true
        → MayWrite lib config (before_verdict lib config e s).1.calls e
    unfolding before_verdict L2Builder.measure_l2_processing
    before_verdict-MayWrite s h = inr (ground arith)

    run_l2_trigger-IsJustified : Keeps lib config (L2Builder.run_l2_trigger lib config e)
    unfolding L2Builder.run_l2_trigger before_verdict
    run_l2_trigger-IsJustified s h =
        let k = before_verdict-IsJustified s h in
        choose-IsJustified lib config _ (L2Builder.send_accepted lib config e) skip
          (before_verdict lib config e s).1
          (λ accepted.
            send_accepted-IsJustified (before_verdict lib config e s).1
              (before_verdict-MayWrite s accepted) k)
          (λ rejected. k)

    process_l2-IsJustified : Keeps lib config (L2Builder.process_l2 lib config e)
    unfolding L2Builder.process_l2
    process_l2-IsJustified s h = ground (
      arith,
      write_out-IsJustified s,
      run_l2_trigger-IsJustified s h,
      run_non_z_suppressed-IsJustified s h,
    )

    abbrev request_or_l2 : M Unit
    request_or_l2 =
        choose (not (config.expected_l1_packets == 0)) (L1Builder.send_l1_request lib config e)
          (L2Builder.process_l2 lib config e)

    request_or_l2-IsJustified :
        (s : State)
        → 0 < last_l1_word e s.calls / 256
        → IsJustified lib config s.calls
        → IsJustified lib config (request_or_l2 s).1.calls
    request_or_l2-IsJustified s accepted h =
        choose-IsJustified lib config (not (config.expected_l1_packets == 0))
          (L1Builder.send_l1_request lib config e) (L2Builder.process_l2 lib config e) s
          (λ expected. send_l1_request-IsJustified s (accepted, ground arith) h)
          (λ none_expected. process_l2-IsJustified s h)

    l1_verdict-IsJustified :
        (word : ℕ) (s : State)
        → last_l1_word e s.calls / 256 ≡ word
        → IsJustified lib config s.calls
        → IsJustified lib config (L1Builder.l1_verdict lib config e word s).1.calls
    unfolding L1Builder.l1_verdict
    l1_verdict-IsJustified word s given h =
        choose-IsJustified lib config (not (word == 0)) request_or_l2 (call (Call.free_event e)) s
          (λ accepted. request_or_l2-IsJustified s (ground arith) h) (λ rejected. h)

    l0_l1_trigger-high : (l0_word word : ℕ) → l0_l1_trigger (u8 l0_word) word / 256 ≡ word
    unfolding l0_l1_trigger
    l0_l1_trigger-high l0_word word =
        omega (arith, bit_or-shifted 8 (u8 l0_word) word (omega arith))

    -- The word that was given last is the one that is read.
    last_l1_word-given :
        (l0_word word : ℕ) (h : List Call)
        → last_l1_word e (Call.set_l1_processed e (l0_l1_trigger (u8 l0_word) word) ∷ h) / 256
          ≡ word
    last_l1_word-given l0_word word h = rw (==_self e) (l0_l1_trigger-high l0_word word)

    bypass_l1-IsJustified : Keeps lib config (L1Builder.bypass_l1 lib config e)
    unfolding L1Builder.bypass_l1 L1Builder.send_l1_request
    bypass_l1-IsJustified s h = elim (Bool-cases (not (config.expected_l1_packets == 0))) [
      | inl remote ↦
          rw (remote, L1Builder.bypass_l1)
            (ground (
              arith,
              last_l1_word-given (lib.l0_trigger_type_word s.calls e) bypass_word
                  (Call.update_l1_statistics e bypass_word ∷ s.calls),
            ))
      | inr local ↦ rw (local, L1Builder.bypass_l1) (process_l2-IsJustified _ h)
    ]

    process_l1_shared-IsJustified : Keeps lib config (L1Builder.process_l1_shared lib config e)
    unfolding L1Builder.process_l1_shared
    process_l1_shared-IsJustified s h = elim (Bool-cases (lib.store_succeeds s.calls e)) [
      | inl holds ↦ rw (holds, L1Builder.process_l1_shared) (ground arith)
      | inr fails ↦ rw (fails, L1Builder.process_l1_shared) (bypass_l1-IsJustified _ (ground arith))
    ]

    process_l1_local-IsJustified : Keeps lib config (L1Builder.process_l1_local lib config e)
    unfolding L1Builder.process_l1_local L1Builder.measure_l1_processing
    process_l1_local-IsJustified s h =
        let given =
          last_l1_word-given (lib.l0_trigger_type_word s.calls e) (u8 (lib.l1_trigger s.calls e)) (
            Call.update_l1_statistics e (u8 (lib.l1_trigger s.calls e))
            ∷ Call.l1_compute e
            ∷ s.calls) in
        l1_verdict-IsJustified _ _ (ground (arith, given)) (ground arith)

    process_l1-IsJustified : Keeps lib config (L1Builder.process_l1 lib config e)
    unfolding L1Builder.process_l1
    process_l1-IsJustified s h =
        ground (arith, process_l1_shared-IsJustified s h, process_l1_local-IsJustified s h)

    pub add_l0_fragment-IsJustified :
        (f : Fragment) (burst_id : ℕ)
        → Keeps lib config (L1Builder.add_l0_fragment lib config e f burst_id)
    unfolding L1Builder.add_l0_fragment L1Builder.measure_l0_building
    add_l0_fragment-IsJustified f b s h = elim (Bool-cases (lib.l0_complete s.calls e f b)) [
      | inl holds ↦ rw (holds, L1Builder.add_l0_fragment) (process_l1-IsJustified _ (ground arith))
      | inr fails ↦ rw (fails, L1Builder.add_l0_fragment) (ground arith)
    ]

    pub add_l1_fragment-IsJustified :
        (f : Fragment) → Keeps lib config (L2Builder.add_l1_fragment lib config e f)
    unfolding L2Builder.add_l1_fragment L2Builder.measure_l1_building
    add_l1_fragment-IsJustified f s h = elim (Bool-cases (lib.l1_complete s.calls e f)) [
      | inl holds ↦ rw (holds, L2Builder.add_l1_fragment) (process_l2-IsJustified _ (ground arith))
      | inr fails ↦ rw (fails, L2Builder.add_l1_fragment) (ground arith)
    ]

    -- `respond` up to the verdict
    before_response : TriggerMessage → M Unit
    before_response message = do
      l0_word ← ask (λ h. u8 (lib.l0_trigger_type_word h e))
      call (Call.set_request_zero_suppressed e message.is_request_zero_suppressed)
      call (Call.set_l1_trigger_words e message.l1_trigger_words)
      call (Call.write_l1_data e message.is_l1_while_timeout)
      call (Call.set_l1_processed e (l0_l1_trigger l0_word message.l1_trigger_type_word))
      call (Call.update_l1_statistics e message.l1_trigger_type_word)

    response_verdict-IsJustified :
        (message : TriggerMessage) (s : State)
        → last_l1_word e s.calls / 256 ≡ message.l1_trigger_type_word
        → IsJustified lib config s.calls
        → IsJustified lib config (response_verdict lib config message e s).1.calls
    unfolding response_verdict
    response_verdict-IsJustified message s given h =
        ground (arith, send_l1_request-IsJustified s, process_l2-IsJustified s h)

    pub respond-IsJustified :
        (message : TriggerMessage) → Keeps lib config (respond lib config message e)
    unfolding respond before_response
    respond-IsJustified message s h =
        response_verdict-IsJustified message (before_response message s).1
          (last_l1_word-given (lib.l0_trigger_type_word s.calls e) message.l1_trigger_type_word (
            Call.write_l1_data e message.is_l1_while_timeout
            ∷ Call.set_l1_trigger_words e message.l1_trigger_words
            ∷ Call.set_request_zero_suppressed e message.is_request_zero_suppressed
            ∷ s.calls))
          h
