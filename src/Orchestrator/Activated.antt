-- ===== src/Orchestrator/Activated.antt =====
-- What an activation leaves, and that it can be asked for again.
use mathlib.Core.Path.{subst}
use flight_multi_agent.Base.{
  ℕ, ◌≡◌, inl, inr, sym, ap, ◌∙◌, String, Bool, true, false, not, Option, some, ◌∷◌, str_eq, eq_iff,
  arith, if◌then◌else◌, Bool-cases, Option-cases,
}
use flight_multi_agent.Base.Result.{ok, Result-cases}
use flight_multi_agent.Trips.{
  Calendar, DocumentMetadata, DocumentObjectRef, SmsNotificationPreference, Database,
  StoredTripView, get_trip, get_notification_recipient,
}
use flight_multi_agent.Trips.Polls.{trace_transaction}
use flight_multi_agent.DocumentStore.{put_pdf}
use flight_multi_agent.Orchestrator.{
  ParseOutcome, ActivationOutcome, already_active, activation_from_view, World, Outside,
  has_authority,
}
use flight_multi_agent.Orchestrator.Activate.{
  prefers_other, replay_activation, save_outcome, confirm, register, parse_and_register,
  activate_trip,
}
use flight_multi_agent.Orchestrator.Registered.{IsOf, save_outcome-IsOf, traced-IsOf}

module _ (calendar : Calendar) where
  -- The trip that an activation has registered, and the answer that was made of it.
  abbrev pub IsActivated :
      DocumentMetadata → Option SmsNotificationPreference → Database → ActivationOutcome → Type 0
  IsActivated metadata preference db outcome =
      (view : StoredTripView) × (get_trip calendar db metadata.trip_id ≡ some view)
      × (view.document.sha256 ≡ metadata.sha256)
      × (view.traveler_ref ≡ metadata.traveler_ref)
      × (prefers_other preference (get_notification_recipient calendar db metadata.trip_id) ≡ false)
      × (outcome ≡ activation_from_view view false)

  confirm-IsActivated :
      (metadata : DocumentMetadata) (preference : Option SmsNotificationPreference)
      (inserted : Bool) (db : Database) (outcome : ActivationOutcome)
      → confirm calendar metadata inserted db ≡ ok outcome
      → outcome.idempotent_replay ≡ false
      → (inserted ≡ true)
        × ((view : StoredTripView) × (get_trip calendar db metadata.trip_id ≡ some view)
            × (view.document.sha256 ≡ metadata.sha256)
            × (outcome ≡ activation_from_view view false))
  unfolding confirm activation_from_view
  confirm-IsActivated metadata preference inserted db outcome confirmed fresh =
      elim (Option-cases (get_trip calendar db metadata.trip_id)) [
        | inl missing ↦ absurd (ground arith)
        | inr (view, stored) ↦ elim (Bool-cases (str_eq view.document.sha256 metadata.sha256)) [
          | inr other ↦ absurd (ground arith)
          | inl same ↦
              let digest = (eq_iff view.document.sha256 metadata.sha256).0 same in
              let answered : activation_from_view view (not inserted) ≡ outcome = ground arith in
              elim (Bool-cases inserted) [
                | inr kept ↦ absurd (ground arith)
                | inl new ↦ (
                  new,
                  (
                    view,
                    stored,
                    digest,
                    sym (subst (λ b. activation_from_view view (not b) ≡ outcome) new answered),
                  ),
                )
              ]
        ]
      ]

  register-IsActivated :
      (outside : Outside) (metadata : DocumentMetadata) (parsed : ParseOutcome)
      (document : DocumentObjectRef) (now : ℕ) (preference : Option SmsNotificationPreference)
      (w next : World) (outcome : ActivationOutcome)
      → has_authority metadata parsed ≡ true
      → register calendar outside metadata parsed document now preference w ≡ (ok outcome, next)
      → outcome.idempotent_replay ≡ false
      → IsActivated metadata preference next.db outcome
  unfolding register
  register-IsActivated outside metadata parsed document now preference w next outcome checked
        registered fresh =
      let save =
        save_outcome calendar metadata parsed document now preference (outside.meanwhile w.db) in
      elim (Result-cases save) [
        | inl (e, failed) ↦ absurd (ground arith)
        | inr (saved, done) ↦
            let id = metadata.trip_id in
            let traced : Database =
              if saved.0 then trace_transaction id outside.trace_headers saved.1 else saved.1 in
            let confirmed : confirm calendar metadata saved.0 traced ≡ ok outcome = ground arith in
            let kept : traced ≡ next.db = ground arith in
            let (new, (view, stored, digest, answered)) =
              confirm-IsActivated metadata preference saved.0 traced outcome confirmed fresh in
            let inserted : save ≡ ok (true, saved.1) = done ∙ ap (λ b. ok (b, saved.1)) new in
            let held = traced-IsOf calendar metadata preference outside.trace_headers saved.1 (
              save_outcome-IsOf calendar metadata parsed document now preference
                (outside.meanwhile w.db) saved.1 checked inserted) in
            let same : trace_transaction id outside.trace_headers saved.1 ≡ traced = ground arith in
            let (own, found, traveler, preferred) =
              subst (IsOf calendar metadata preference) same held in
            let one : view ≡ own = ground arith in
            subst (λ d. IsActivated metadata preference d outcome) kept
              (view, stored, digest, ap (λ v. v.traveler_ref) one ∙ traveler, preferred, answered)
      ]

  module _ (sha256 strip_quotes : String → String) (bucket : String) where
    -- An activation that registers the trip, whatever other transactions do until its own, leaves
    -- the trip of the traveller with the document of the metadata, and the contact that was asked
    -- for, and answers with that trip.
    pub activate_trip-IsActivated :
        (outside : Outside) (bytes : String) (metadata : DocumentMetadata) (now : ℕ)
        (preference : Option SmsNotificationPreference) (w next : World)
        (outcome : ActivationOutcome)
        → activate_trip calendar sha256 strip_quotes bucket outside bytes metadata now preference w
          ≡ (ok outcome, next)
        → outcome.idempotent_replay ≡ false
        → IsActivated metadata preference next.db outcome
    unfolding activate_trip replay_activation parse_and_register activation_from_view
    activate_trip-IsActivated outside bytes metadata now preference w next outcome done fresh =
        elim (Option-cases (get_trip calendar w.db metadata.trip_id)) [
          | inr (existing, stored) ↦ absurd (ground arith)
          | inl missing ↦
              let put = put_pdf sha256 strip_quotes bucket outside.s3 bytes metadata w.objects in
              elim (Result-cases put) [
                | inl (e, failed) ↦ absurd (ground arith)
                | inr (kept, placed) ↦ elim (Option-cases (outside.parse bytes metadata)) [
                  | inl failed ↦ absurd (ground arith)
                  | inr (parsed, read) ↦ elim (Bool-cases (has_authority metadata parsed)) [
                    | inr refused ↦ absurd (ground arith)
                    | inl checked ↦
                        register-IsActivated outside metadata parsed kept.0 now preference
                          (record w { objects = kept.1; parses = metadata ∷ w.parses }) next outcome
                          checked (ground arith) fresh
                  ]
                ]
              ]
        ]

    -- An activation that registered a trip can be asked for again: with the same metadata and the
    -- same contact, whatever the bytes, the time and the answers from outside, it answers with the
    -- same trip as already active, asks the document agent nothing and changes nothing.
    pub activate_trip-again :
        (outside later : Outside) (bytes other : String) (metadata : DocumentMetadata)
        (now then_now : ℕ) (preference : Option SmsNotificationPreference) (w next : World)
        (outcome : ActivationOutcome)
        → activate_trip calendar sha256 strip_quotes bucket outside bytes metadata now preference w
          ≡ (ok outcome, next)
        → outcome.idempotent_replay ≡ false
        → activate_trip calendar sha256 strip_quotes bucket later other metadata then_now preference
            next
          ≡ (ok (record outcome { status = already_active; idempotent_replay = true }), next)
    unfolding activate_trip replay_activation activation_from_view
    activate_trip-again outside later bytes other metadata now then_now preference w next outcome
          done fresh =
        let (view, stored, digest, traveler, preferred, answered) =
          activate_trip-IsActivated outside bytes metadata now preference w next outcome done
            fresh in
        let same_digest = (eq_iff view.document.sha256 metadata.sha256).1 digest in
        let same_traveler = (eq_iff view.traveler_ref metadata.traveler_ref).1 traveler in
        ground arith
