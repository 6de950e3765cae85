-- ===== src/NotificationAction/Messages.antt =====
-- What the settlement of a confirmed event's message tells.
use flight_multi_agent.Base.{
  ℕ, ◌≡◌, ◌∙◌, ◌<◌, Bool, true, false, none, some, arith, Bool-cases, inl, inr,
}
use flight_multi_agent.Base.Result.{raise, Result-cases, value_error}
use flight_multi_agent.Evidence.{Candidate, Decision}
use flight_multi_agent.Events.{ConfirmedEvent, NotificationRecord, confirmed_payload}
use flight_multi_agent.MonitoringStore.{get_notification}
use flight_multi_agent.MonitoringStore.Outbox.{get_candidate}
use flight_multi_agent.EventDelivery.{
  Message, Envelope, acknowledged, quarantine_message, retry_or_quarantine,
}
use flight_multi_agent.Wording.{explanation_request, is_acceptable, facts_of}
use flight_multi_agent.NotificationAction.{
  Outside, World, is_done, verified_decision, is_valid_event,
}
use flight_multi_agent.NotificationAction.Process.{
  process_confirmed_event, process_confirmed_message, settle, wording_for,
}
use flight_multi_agent.NotificationAction.Steps.{
  checked, act_on-push, act-verified, notify_traveler-raised, process-fresh,
}
use flight_multi_agent.NotificationAction.Once.{process-Stores}

module _ {F : Type 0} (outside : Outside F) (acks : Bool) (maximum : ℕ) (message : Message F)
    (w : World F) (envelope : Envelope F) (e : ConfirmedEvent) where
  -- The message of a confirmed event is acknowledged only if the store afterwards holds a record of
  -- its notification that is accepted, delivered or a duplicate.
  pub acknowledged-notified :
      message.envelope ≡ some envelope
      → envelope.payload ≡ confirmed_payload e
      → let after = process_confirmed_message outside acks maximum message w in
        after.0 ≡ acknowledged
        → (r : NotificationRecord) × (get_notification after.1.store e.decision_id ≡ some r)
          × (is_done r.status ≡ true)
  unfolding process_confirmed_message settle quarantine_message retry_or_quarantine
  acknowledged-notified decoded carries acked =
      let result = process_confirmed_event outside e w in
      elim (Result-cases result.0) [
        | inl (error, raised) ↦ absurd (ground arith)
        | inr (r, returned) ↦ elim (Bool-cases (is_done r.status)) [
          | inl done ↦
              let stored = process-Stores outside e w r returned done in (r, ground arith, done)
          | inr failed ↦ absurd (ground arith)
        ]
      ]

-- The traveller is not notified of an approved delay of more than two days: the request for its
-- wording is refused outside the block that falls back to a plain wording, so that processing the
-- event raises, gives the notification tool no command and stores no record. The event is new, its
-- authority is verified, the store holds its candidate, and the notification is a push.
pub process-too_long :
    {F : Type 0} (outside : Outside F) (e : ConfirmedEvent) (w : World F) (d : Decision F)
    (c : Candidate F) (minutes : ℕ)
    → is_valid_event e ≡ true
    → get_notification w.store e.decision_id ≡ none
    → verified_decision e (checked outside e w).store ≡ some d
    → get_candidate (checked outside e w).store e.candidate_id ≡ some c
    → c.delay_minutes ≡ some minutes
    → 2880 < minutes
    → outside.is_twilio ≡ false
    → process_confirmed_event outside e w ≡ (raise value_error, checked outside e w)
unfolding explanation_request is_acceptable
process-too_long outside e w d c minutes valid fresh verified held late long push =
    let world = checked outside e w in
    let unacceptable : is_acceptable (facts_of e (some c)) ≡ false = ground arith in
    let refused : wording_for outside e world ≡ raise value_error = ground arith in
    process-fresh outside e w valid fresh
    ∙ act-verified outside e w d verified
    ∙ act_on-push outside e d world push
    ∙ notify_traveler-raised outside e d none world value_error refused
