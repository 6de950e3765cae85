-- ===== src/Orchestrator/Activate.antt =====
-- flight_agent/trip_orchestrator.py, `TripOrchestrator.activate_trip` and `verify_document`.
use flight_multi_agent.Base.{
  ℕ, String, Bool, true, false, not, ◌||◌, Option, none, some, ◌∷◌, str_eq, if◌then◌else◌,
}
use flight_multi_agent.Base.Result.{Result, ok, raise, runtime_error, conflict_error}
use flight_multi_agent.Trips.{
  Calendar, DocumentMetadata, DocumentObjectRef, SmsNotificationPreference, Database,
  StoredTripView, NotificationRecipient, get_trip, get_notification_recipient,
}
use flight_multi_agent.Trips.Writes.{save_parsed_trip, save_review_trip}
use flight_multi_agent.Trips.Polls.{trace_transaction}
use flight_multi_agent.DocumentStore.{S3, put_pdf, verify}
use flight_multi_agent.Orchestrator.{
  ParseOutcome, ActivationOutcome, activation_from_view, World, Outside, has_authority, review_of,
  parsed_itinerary,
}

-- A contact is wanted that is not the one that is stored.
unfoldable pub prefers_other :
    Option SmsNotificationPreference → Option NotificationRecipient → Bool
prefers_other none recipient = false
prefers_other (some preference) none = true
prefers_other (some preference) (some recipient) =
    not (str_eq recipient.phone_e164 preference.phone_e164)

module _ (calendar : Calendar) where
  -- A trip that is stored already
  unfoldable pub replay_activation :
      DocumentMetadata
      → Option SmsNotificationPreference
      → Database
      → StoredTripView
      → Result ActivationOutcome
  replay_activation metadata preference db existing =
      let recipient = get_notification_recipient calendar db metadata.trip_id in
      if not (str_eq existing.document.sha256 metadata.sha256)
        || not (str_eq existing.traveler_ref metadata.traveler_ref)
      then raise conflict_error
      else if prefers_other preference recipient
      then raise conflict_error
      else ok (activation_from_view existing true)

  unfoldable pub save_outcome :
      DocumentMetadata
      → ParseOutcome
      → DocumentObjectRef
      → ℕ
      → Option SmsNotificationPreference
      → Database
      → Result (Bool × Database)
  save_outcome metadata outcome document now preference db = elim (parsed_itinerary outcome) [
    | some itinerary ↦ save_parsed_trip calendar itinerary document now preference db
    | none ↦
        save_review_trip calendar metadata.trip_id metadata.traveler_ref document
          (review_of outcome.review) now preference db
  ]

  -- The stored trip is read again.
  unfoldable pub confirm : DocumentMetadata → Bool → Database → Result ActivationOutcome
  confirm metadata inserted db = elim (get_trip calendar db metadata.trip_id) [
    | none ↦ raise runtime_error
    | some stored ↦
        if not (str_eq stored.document.sha256 metadata.sha256)
        then raise conflict_error
        else ok (activation_from_view stored (not inserted))
  ]

  -- After the document was parsed
  unfoldable pub register :
      Outside
      → DocumentMetadata
      → ParseOutcome
      → DocumentObjectRef
      → ℕ
      → Option SmsNotificationPreference
      → World
      → Result ActivationOutcome × World
  register outside metadata outcome document now preference w =
      elim (save_outcome metadata outcome document now preference (outside.meanwhile w.db)) [
        | raise e ↦ (raise e, record w { db = outside.meanwhile w.db })
        | ok saved ↦
            let traced =
              if saved.0
              then trace_transaction metadata.trip_id outside.trace_headers saved.1
              else saved.1 in
            (confirm metadata saved.0 traced, record w { db = traced })
      ]

  module _ (sha256 strip_quotes : String → String) (bucket : String) where
    -- A trip that is not stored yet
    unfoldable pub parse_and_register :
        Outside
        → String
        → DocumentMetadata
        → ℕ
        → Option SmsNotificationPreference
        → World
        → Result ActivationOutcome × World
    parse_and_register outside bytes metadata now preference w =
        elim (put_pdf sha256 strip_quotes bucket outside.s3 bytes metadata w.objects) [
          | raise e ↦ (raise e, w)
          | ok stored ↦
              let asked = record w { objects = stored.1; parses = metadata ∷ w.parses } in
              elim (outside.parse bytes metadata) [
                | none ↦ (raise runtime_error, asked)
                | some outcome ↦
                    if has_authority metadata outcome
                    then register outside metadata outcome stored.0 now preference asked
                    else (raise runtime_error, asked)
              ]
        ]

    unfoldable pub activate_trip :
        Outside
        → String
        → DocumentMetadata
        → ℕ
        → Option SmsNotificationPreference
        → World
        → Result ActivationOutcome × World
    activate_trip outside bytes metadata now preference w =
        elim (get_trip calendar w.db metadata.trip_id) [
          | some existing ↦ (replay_activation metadata preference w.db existing, w)
          | none ↦ parse_and_register outside bytes metadata now preference w
        ]

  -- Whether the document of a trip is stored
  unfoldable pub verify_document : String → S3 → String → World → Option (Bool × DocumentObjectRef)
  verify_document bucket s3 trip_id w = elim (get_trip calendar w.db trip_id) [
    | none ↦ none
    | some trip ↦ some (verify bucket s3 trip.document w.objects, trip.document)
  ]
