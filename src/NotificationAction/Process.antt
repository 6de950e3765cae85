-- ===== src/NotificationAction/Process.antt =====
-- flight_agent/notification_action_service.py, `process_confirmed_event` and the handling of a
-- message.
use flight_multi_agent.Base.{
  ℕ, String, Bool, true, false, not, ◌||◌, Option, none, some, [], ◌∷◌, ◌++◌, if◌then◌else◌,
}
use flight_multi_agent.Base.Text.{truthy}
use flight_multi_agent.Base.Table.{Table}
use flight_multi_agent.Base.Result.{Result, ok, raise, ◌>>=◌, value_error, client_error}
use flight_multi_agent.Evidence.{Decision}
use flight_multi_agent.Events.{
  ConfirmedEvent, ActionStatus, Explanation, NotificationRecord, confirmed_payload,
}
use flight_multi_agent.MonitoringStore.{Item, get_notification, put_notification}
use flight_multi_agent.MonitoringStore.Outbox.{get_candidate}
use flight_multi_agent.EventDelivery.{
  Settlement, acknowledged, Message, Envelope, quarantine_message, retry_or_quarantine,
}
use flight_multi_agent.Wording.{explanation_request, friendly_explanation}
use flight_multi_agent.NotificationAction.{
  NotificationCommand, Outside, World, command_of, is_done, is_valid_command, is_valid_event,
  record_for, record_of, verified_decision, wait_for_commit,
}

module _ {F : Type 0} where
  module _ (outside : Outside F) (e : ConfirmedEvent) where
    -- The last step, which may raise.
    unfoldable pub save : NotificationRecord → World F → Result NotificationRecord × World F
    save r w =
        if outside.stores
        then (ok r, record w { store = put_notification w.store e.decision_id r })
        else (raise client_error, w)

    unfoldable pub submit : NotificationCommand → World F → Result NotificationRecord × World F
    submit command w =
        if is_valid_command command
        then save (record_for e outside.now command.wording (outside.send command))
            (record w { sent = w.sent ++ command ∷ [] })
        else (raise value_error, w)

    -- The wording of the event, from the facts of the stored candidate.
    abbrev pub wording_for : World F → Result Explanation
    wording_for w =
        explanation_request e (get_candidate w.store e.candidate_id)
        >>= friendly_explanation outside.communicator

    unfoldable pub notify_traveler :
        Decision F → Option String → World F → Result NotificationRecord × World F
    notify_traveler d address w = elim (wording_for w) [
      | raise error ↦ (raise error, w)
      | ok text ↦ submit (command_of e d address text) w
    ]

    -- An approved event; only a text message needs an address.
    unfoldable pub act_on : Decision F → World F → Result NotificationRecord × World F
    act_on d w =
        if outside.is_twilio
        then elim (outside.recipient e.trip_id) [
          | none ↦
              save
                (record_of e ActionStatus.rejected outside.now (some "SMS_RECIPIENT_UNAVAILABLE")) w
          | some phone ↦ notify_traveler d (some phone) w
        ]
        else notify_traveler d none w

    -- An event that was not notified of before.
    unfoldable pub act : World F → Result NotificationRecord × World F
    act before =
        let w : World F = record before {
          store = wait_for_commit e outside.waiting before.store;
        } in
        elim (verified_decision e w.store) [
          | none ↦ (
            ok (record_of e ActionStatus.rejected outside.now (some "EVAL_AUTHORITY_MISMATCH")),
            w,
          )
          | some d ↦ act_on d w
        ]

    unfoldable pub process_confirmed_event : World F → Result NotificationRecord × World F
    process_confirmed_event w =
        if is_valid_event e
        then elim (get_notification w.store e.decision_id) [
          | none ↦ act w
          | some existing ↦ if is_done existing.status then (ok existing, w) else act w
        ]
        else (raise value_error, w)

  module _ (outside : Outside F) (acks : Bool) (maximum : ℕ) (message : Message F) where
    abbrev consumer : String
    consumer = "travel-notification-action-v1"

    -- The settlement that an outcome of the event leads to.
    settle_with : (String → Settlement × Table (Item F)) → World F → String → Settlement × World F
    settle_with settlement w error_code =
        let settled = settlement error_code in (settled.0, record w { store = settled.1 })

    abbrev is_final : NotificationRecord → Bool
    is_final r = elim r.submission_failure [ none ↦ false | some failure ↦ not failure.retryable ]

    abbrev is_rejected : ActionStatus → Bool
    is_rejected ActionStatus.rejected = true
    is_rejected _ = false

    abbrev error_or : Option String → String → String
    error_or none default = default
    error_or (some text) default = if truthy text then text else default

    module _ (envelope : Envelope F) where
      retry : World F → String → Settlement × World F
      retry w =
          settle_with
            (λ error_code.
              retry_or_quarantine outside.now w.store consumer message envelope.event_id
                (some envelope.payload) error_code maximum)
            w

      quarantine : World F → String → Settlement × World F
      quarantine w =
          settle_with
            (λ error_code.
              quarantine_message outside.now w.store consumer message envelope.event_id
                (some envelope.payload) error_code)
            w

      unfoldable pub settle : Result NotificationRecord × World F → Settlement × World F
      unfolding retry quarantine settle_with
      settle (raise error, w) = retry w "NOTIFICATION_ACTION_FAILED"
      settle (ok r, w) =
          if is_done r.status
          then if acks then (acknowledged, w) else retry w "NOTIFICATION_ACTION_FAILED"
          else if is_rejected r.status || is_final r
          then quarantine w (error_or r.error_code "NOTIFICATION_EVENT_REJECTED")
          else retry w (error_or r.error_code "NOTIFICATION_ACTION_FAILED")

    unfoldable pub invalid : World F → Settlement × World F
    unfolding settle_with
    invalid w =
        settle_with
          (λ error_code.
            quarantine_message outside.now w.store consumer message message.fallback none
              error_code)
          w "CONFIRMED_EVENT_INVALID"

    -- An envelope of another type is refused as one that does not decode.
    unfoldable pub process_confirmed_message : World F → Settlement × World F
    process_confirmed_message w = elim message.envelope [
      | none ↦ invalid w
      | some envelope ↦ elim envelope.payload [
        | confirmed_payload e ↦ settle envelope (process_confirmed_event outside e w)
        | _ ↦ invalid w
      ]
    ]
