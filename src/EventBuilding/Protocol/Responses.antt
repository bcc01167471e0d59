-- ===== src/EventBuilding/Protocol/Responses.antt =====
-- SharedMemory/QueueReceiver.cpp in the life of an event.
use na62_farm.EventBuilding.Protocol.Assumed.{InProtocol, IsPending}
use na62_farm.Base.{
  some_inj, Option, none, some, ◌≡◌, refl, subst, ◌∙◌, ◌==◌, inl, inr, arith, Bool-cases,
}
use na62_farm.Base.Words.{u8}
use na62_farm.EventBuilding.Library.{Event, TriggerMessage, Call, Library, Config}
use na62_farm.EventBuilding.State.{M, ◌>>=◌, ◌>>◌, call, ask}
use na62_farm.EventBuilding.L1Builder.{l0_l1_trigger}
use na62_farm.EventBuilding.QueueReceiver.{
  Receiver, response_verdict, respond, respond_to, count_message, receive,
}
use na62_farm.EventBuilding.Protocol.{building, l1_done, requested, freed, phase, Takes}
use na62_farm.EventBuilding.Protocol.L2.{process_l2-Takes}
use na62_farm.EventBuilding.Protocol.L1.{TakesToEither, send_l1_request-Takes}

module _ (lib : Library) (config : Config) (message : TriggerMessage) (e : Event) where
  response_verdict-Takes :
      TakesToEither e l1_done requested freed (response_verdict lib config message e)
  unfolding response_verdict
  response_verdict-Takes s h x = ground (
    arith,
    send_l1_request-Takes lib config e s h x,
    send_l1_request-Takes lib config e s h e,
    process_l2-Takes lib config e l1_done (inl refl) s h x,
  )

  before_verdict : M Unit
  before_verdict = do
    l0_word ← ask (λ h. u8 (lib.l0_trigger_type_word h e))
    call (Call.set_request_zero_suppressed e message.is_request_zero_suppressed)
    call (Call.set_l1_trigger_words e message.l1_trigger_words)
    call (Call.write_l1_data e message.is_l1_while_timeout)
    call (Call.set_l1_processed e (l0_l1_trigger l0_word message.l1_trigger_type_word))
    call (Call.update_l1_statistics e message.l1_trigger_type_word)

  before_verdict-Takes : Takes e building l1_done before_verdict
  unfolding before_verdict
  before_verdict-Takes s h x = ground arith

  -- The answer of a trigger process takes a built event to the request for the LKr data, or to its
  -- end, and leaves every other event where it is.
  pub respond-Takes : TakesToEither e building requested freed (respond lib config message e)
  unfolding respond before_verdict
  respond-Takes s h x = ground (
    arith,
    before_verdict-Takes s h x,
    before_verdict-Takes s h e,
    response_verdict-Takes (before_verdict s).1 (ground (arith, before_verdict-Takes s h e)) x,
  )

module _ (lib : Library) (config : Config) (message : TriggerMessage) (r : Receiver) where
  pub count_message-phase :
      (x : Event)
      → phase x (count_message lib config message r).builders.calls ≡ phase x r.builders.calls
  unfolding count_message
  count_message-phase x = ground arith

module _ (lib : Library) (config : Config) (message : TriggerMessage) (r : Receiver)
    (pending : IsPending lib config message r) (h : InProtocol r.builders) where
  abbrev counted : Receiver
  counted = count_message lib config message r

  counted-InProtocol : InProtocol counted.builders
  counted-InProtocol x = rw count_message-phase (h x)

  respond_to-InProtocol :
      (o : Option Event) (r' : Receiver)
      → lib.get_event counted.builders.calls message.event_id ≡ o
      → respond_to lib config message o counted ≡ some r'
      → InProtocol r'.builders
  unfolding respond_to
  respond_to-InProtocol none r' found e = absurd (cc)
  respond_to-InProtocol (some event) r' found e =
      subst (λ o. InProtocol o.builders) (some_inj e)
        λ x. ground (
          arith,
          counted-InProtocol x,
          respond-Takes lib config message event counted.builders
              (count_message-phase lib config message r event ∙ pending event found) x,
        )

  pub receive-InProtocol :
      (r' : Receiver) → receive lib config message r ≡ some r' → InProtocol r'.builders
  unfolding receive
  receive-InProtocol r' e =
      elim (Bool-cases (message.burst_id == lib.current_burst_id r.builders.calls)) [
        | inl now ↦ elim (Bool-cases (message.level == 1)) [
          | inl l1 ↦ respond_to-InProtocol _ r' refl (rw (now, l1) at e)
          | inr other ↦
              subst (λ o. InProtocol o.builders) (some_inj (rw (now, other) at e))
                counted-InProtocol
        ]
        | inr old ↦ subst (λ o. InProtocol o.builders) (some_inj (rw old at e)) h
      ]
