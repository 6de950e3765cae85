-- ===== src/Orchestrator/Upload.antt =====
-- flight_agent/trip_orchestrator.py, the endpoints of the orchestrator, and the check of a mobile
-- number in flight_agent/trip_contracts.py.
--
-- A document is a text of its bytes. `Web` has what Python does with texts: `str.strip` and the
-- digest of a document.
use Prim.Native.Char.{code}
use Prim.Native.String.{count}
use flight_multi_agent.Base.{
  ℕ, ◌*◌, String, Bool, true, false, not, ◌&&◌, Option, none, some, str_eq, if◌then◌else◌, ltb, leb,
  ◌==◌, is_some,
}
use flight_multi_agent.Base.Text.{truthy, strip_prefix}
use flight_multi_agent.Base.Result.{
  Error, Result, ok, raise, value_error, conflict_error, Answer, refused, answered,
}
use flight_multi_agent.NotificationAction.{is_slug}
use flight_multi_agent.Trips.{
  Calendar, DocumentMetadata, DocumentObjectRef, SmsNotificationPreference, StoredTripView,
  NotificationRecipient, Database, second_text, get_trip, get_notification_recipient,
}
use flight_multi_agent.DocumentStore.{S3}
use flight_multi_agent.Orchestrator.{ActivationOutcome, World, Outside}
use flight_multi_agent.Orchestrator.Activate.{activate_trip, verify_document}
use flight_multi_agent.Orchestrator.Tick.{TickOutside, TickRequest, TickOutcome, tick}

pub record Web : Type 0 where
  pub strip : String → String
  pub sha256 : String → String
  pub strip_quotes : String → String

unfoldable pub all_digits : String → Bool
all_digits String.[] = true
all_digits (String.◌∷◌ c s) =
    let rest = all_digits s in (leb 48 (code c) && leb (code c) 57) && rest

-- A plus sign, a digit that is not zero, and seven to fourteen digits
unfoldable pub is_e164 : String → Bool
unfolding all_digits
is_e164 (String.◌∷◌ plus (String.◌∷◌ first digits)) =
    code plus == 43
    && (leb 49 (code first)
        && (leb (code first) 57
            && (leb 7 (count digits) && (leb (count digits) 14 && all_digits digits))))
is_e164 _ = false

abbrev pub is_given : Option String → Bool
is_given none = false
is_given (some phone) = truthy phone

unfoldable pub check_format : Option String → Result (Option String)
check_format none = ok none
check_format (some phone) =
    if truthy phone && not (is_e164 phone) then raise value_error else ok (some phone)

module _ (strip : String → String) where
  abbrev pub cleaned_phone : Option String → Option String
  cleaned_phone none = none
  cleaned_phone (some phone) = if truthy phone then some (strip phone) else none

  unfoldable pub validate_sms_notification_input : Option String → Bool → Result (Option String)
  validate_sms_notification_input phone_e164 sms_consent =
      let cleaned = cleaned_phone phone_e164 in
      if sms_consent && not (is_given cleaned)
      then raise value_error
      else if is_given cleaned && not sms_consent
      then raise value_error
      else check_format cleaned

-- The preference that is made of a checked number
unfoldable pub preference_of : Calendar → ℕ → Option String → Option SmsNotificationPreference
preference_of calendar now none = none
preference_of calendar now (some phone) =
    if truthy phone
    then some (record { phone_e164 = phone; consent_granted_at = second_text calendar now })
    else none

-- `File` and `Form`; a text that is not given is `none`.
pub record Upload : Type 0 where
  pub content : String
  pub content_type : Option String
  pub filename : Option String
  pub trip_id : String
  pub traveler_ref : String
  pub fixture_id : String
  pub phone_e164 : Option String
  pub sms_consent : Bool

abbrev max_pdf_bytes : ℕ
max_pdf_bytes = 5 * (1024 * 1024)

abbrev is_pdf : Upload → Bool
is_pdf upload =
    let typed : Bool = elim upload.content_type [
      | none ↦ false
      | some t ↦ str_eq t "application/pdf"
    ] in
    typed && is_some (strip_prefix "%PDF-" upload.content)

abbrev filename_of : Option String → String
filename_of none = "itinerary.pdf"
filename_of (some name) = if truthy name then name else "itinerary.pdf"

unfoldable pub metadata_of : (String → String) → Upload → DocumentMetadata
metadata_of sha256 upload = record {
  trip_id = upload.trip_id;
  traveler_ref = upload.traveler_ref;
  fixture_id = upload.fixture_id;
  filename = filename_of upload.filename;
  sha256 = sha256 upload.content;
}

abbrev within_length : ℕ → String → Bool
within_length maximum text = truthy text && leb (count text) maximum

-- The checks of `DocumentMetadata`; the digest is of its pattern.
unfoldable pub is_valid_metadata : DocumentMetadata → Bool
unfolding is_slug strip_prefix
is_valid_metadata metadata =
    let named : Bool = elim (strip_prefix "trip-" metadata.trip_id) [
      | none ↦ false
      | some rest ↦ truthy rest && is_slug rest
    ] in
    named
    && (within_length 200 metadata.traveler_ref
        && (within_length 200 metadata.fixture_id && within_length 255 metadata.filename))

-- The status of an exception that leaves the handler
abbrev status_of : Error → ℕ
status_of conflict_error = 409
status_of _ = 500

abbrev answer_of : {A : Type 0} → Result A → Answer A
answer_of (raise e) = refused (status_of e)
answer_of (ok a) = answered a

-- A missing value is refused.
abbrev found_or_404 : {A : Type 0} → Option A → Answer A
found_or_404 none = refused 404
found_or_404 (some a) = answered a

module _ (calendar : Calendar) (web : Web) (bucket : String) where
  -- The answer to a document that passed the checks of its form
  unfoldable pub accept_upload : Outside → Upload → ℕ → World → Answer ActivationOutcome × World
  accept_upload outside upload now w =
      let metadata = metadata_of web.sha256 upload in
      elim (validate_sms_notification_input web.strip upload.phone_e164 upload.sms_consent) [
        | raise e ↦ (refused 422, w)
        | ok validated ↦
            let (outcome, next) =
              activate_trip calendar web.sha256 web.strip_quotes bucket outside upload.content
                metadata now (preference_of calendar now validated) w in
            (answer_of outcome, next)
      ]

  unfoldable pub upload_trip : Outside → Upload → ℕ → World → Answer ActivationOutcome × World
  upload_trip outside upload now w =
      if ltb max_pdf_bytes (count upload.content)
      then (refused 413, w)
      else if not (is_pdf upload)
      then (refused 415, w)
      else if not (is_valid_metadata (metadata_of web.sha256 upload))
      then (refused 500, w)
      else accept_upload outside upload now w

  unfoldable pub trip_endpoint : String → World → Answer StoredTripView
  trip_endpoint trip_id w = found_or_404 (get_trip calendar w.db trip_id)

  unfoldable pub recipient_endpoint : String → World → Answer NotificationRecipient
  recipient_endpoint trip_id w = found_or_404 (get_notification_recipient calendar w.db trip_id)

  unfoldable pub document_endpoint : S3 → String → World → Answer (Bool × DocumentObjectRef)
  document_endpoint s3 trip_id w = found_or_404 (verify_document calendar bucket s3 trip_id w)

-- The control of the scheduler may be switched off.
unfoldable pub scheduler_tick :
    Bool → Calendar → TickOutside → ℕ → TickRequest → Database → Answer TickOutcome × Database
scheduler_tick enabled calendar outside lease_seconds request db =
    let (outcome, next) = tick calendar outside lease_seconds request db in
    if enabled then (answer_of outcome, next) else (refused 404, db)
