-- ===== src/Examples/Trips.antt =====
-- A traveller who registers a trip, twice, and an operator who redrives an event.
use flight_multi_agent.Base.{
  ◌≡◌, ◌⊎◌, refl, String, Bool, true, false, none, some, [], ◌∷◌, length, any, All,
}
use flight_multi_agent.Base.Result.{Result, ok, raise, value_error}
use flight_multi_agent.Base.Assoc.{Dict, lookup, insert}
use flight_multi_agent.Clock.{parse_timestamp}
use flight_multi_agent.Trips.{
  Calendar, DocumentMetadata, DocumentObjectRef, ItineraryLeg, CanonicalItinerary,
  SmsNotificationPreference, trip_active, Database, StoredTripView, get_trip, first_row, trip_view,
}
use flight_multi_agent.Trips.Writes.{
  new_leg, insert_leg, insert_legs, save_notification_preference, insert_parsed, save_parsed_trip,
}
use flight_multi_agent.Trips.Polls.{trace_transaction}
use flight_multi_agent.Trips.Consistent.{IsConsistent}
use flight_multi_agent.Trips.Reached.{
  Reached, start, later, registers, new_database, Reached-IsConsistent,
}
use flight_multi_agent.Trips.RoundTrip.{shows, IsFreshView, get_trip-save_parsed_trip}
use flight_multi_agent.DocumentStore.{S3, StoredObject, clean_etag, put_pdf, verify, verify-put_pdf}
use flight_multi_agent.Orchestrator.{
  ParseOutcome, parsed, ActivationOutcome, already_active, World, Outside, activation_from_view,
  has_authority,
}
use flight_multi_agent.Orchestrator.Activate.{
  save_outcome, confirm, register, parse_and_register, activate_trip,
}
use flight_multi_agent.Orchestrator.Activated.{activate_trip-again}
use flight_multi_agent.Orchestrator.Upload.{
  is_e164, check_format, validate_sms_notification_input, preference_of,
}
use flight_multi_agent.Orchestrator.Consent.{preference_of-IsConsented}
use flight_multi_agent.Examples.Sample.{numerals}

unfoldable pub calendar : Calendar
unfolding numerals
calendar = record {
  iso = numerals;
  date = λ instant. "2026-08-25";
  microseconds = numerals.isoformat;
}

abbrev document : DocumentObjectRef
document = record { bucket = "travel"; key = "trips/a.pdf"; sha256 = "d1"; etag = none }

abbrev pub leg_of : String → String → ItineraryLeg
leg_of leg_id departure = record {
  leg_id = leg_id;
  flight_number = "BA100";
  origin = "LHR";
  destination = "JFK";
  scheduled_departure_at = departure;
  scheduled_arrival_at = "900";
}

abbrev pub itinerary : CanonicalItinerary
itinerary = record {
  trip_id = "trip-a";
  traveler_ref = "traveler-a";
  confirmation_codes = "ABC" ∷ [];
  legs = leg_of "leg-1" "500" ∷ leg_of "leg-2" "400" ∷ [];
}

abbrev preference : SmsNotificationPreference
preference = record { phone_e164 = "+447700900123"; consent_granted_at = "7" }

abbrev database_of : Result (Bool × Database) → Database
database_of (ok saved) = saved.1
database_of (raise e) = new_database

abbrev pub saved_db : Database
saved_db =
    database_of (save_parsed_trip calendar itinerary document 7 (some preference) new_database)

saves :
    save_parsed_trip calendar itinerary document 7 (some preference) new_database
    ≡ ok (true, saved_db)
unfolding calendar numerals save_parsed_trip insert_parsed insert_legs insert_leg new_leg
    save_notification_preference parse_timestamp
saves = refl

pub saved_trip : Reached calendar saved_db
saved_trip = later new_database saved_db start (
    registers itinerary document 7 (some preference) true (leg_of "leg-1" "500")
      (leg_of "leg-2" "400" ∷ []) new_database saved_db refl saves)

Reached-IsConsistent_example : IsConsistent saved_db
Reached-IsConsistent_example = Reached-IsConsistent calendar saved_trip

get_trip-save_parsed_trip_example :
    (view : StoredTripView) × (get_trip calendar saved_db "trip-a" ≡ some view)
    × (view.status ≡ trip_active)
    × (view.traveler_ref ≡ "traveler-a")
    × (view.document ≡ document)
    × (view.itinerary ≡ some itinerary)
    × (length view.legs ≡ 2)
    × All (IsFreshView calendar 7) view.legs
    × All (λ leg. any (shows leg) view.legs ≡ true) itinerary.legs
get_trip-save_parsed_trip_example =
    get_trip-save_parsed_trip calendar itinerary document 7 (some preference) new_database saved_db
      (tt, tt, tt) saves

-- A bucket, and texts that are their own digests
abbrev same_text : String → String
same_text s = s

abbrev working : S3
working = record { head_fails = false; put_fails = false; etag = some "e1" }

abbrev metadata : DocumentMetadata
metadata = record {
  trip_id = "trip-a";
  traveler_ref = "traveler-a";
  fixture_id = "fixture-a";
  filename = "a.pdf";
  sha256 = "%PDF-1";
}

abbrev stored_of :
    Result (DocumentObjectRef × Dict StoredObject) → DocumentObjectRef × Dict StoredObject
stored_of (ok stored) = stored
stored_of (raise e) = (document, [])

abbrev stored : DocumentObjectRef × Dict StoredObject
stored = stored_of (put_pdf same_text same_text "travel" working "%PDF-1" metadata [])

stores : put_pdf same_text same_text "travel" working "%PDF-1" metadata [] ≡ ok (stored.0, stored.1)
unfolding put_pdf clean_etag lookup insert
stores = refl

verify-put_pdf_example :
    (verify "travel" working stored.0 stored.1 ≡ true)
    × (stored.0.sha256 ≡ "%PDF-1")
    × (put_pdf same_text same_text "travel" working "%PDF-1" metadata stored.1
        ≡ ok (stored.0, stored.1))
verify-put_pdf_example =
    verify-put_pdf same_text same_text "travel" working working "%PDF-1" metadata [] stored.1
      stored.0 stores refl

abbrev agent_outcome : ParseOutcome
agent_outcome = record {
  status = parsed;
  document = metadata;
  itinerary = some itinerary;
  review = none;
}

abbrev quiet : Outside
quiet = record {
  s3 = working;
  parse = λ bytes m. some agent_outcome;
  meanwhile = λ db. db;
  trace_headers = ("traceparent", "00-1") ∷ [];
}

abbrev empty_world : World
empty_world = record { db = new_database; objects = []; parses = [] }

abbrev activation : Result ActivationOutcome × World
activation =
    activate_trip calendar same_text same_text "travel" quiet "%PDF-1" metadata 7 (some preference)
      empty_world

abbrev made_outcome : Result ActivationOutcome → ActivationOutcome → ActivationOutcome
made_outcome (ok outcome) other = outcome
made_outcome (raise e) other = other

abbrev fallback : ActivationOutcome
fallback = record {
  status = already_active;
  trip_id = "";
  trip_status = trip_active;
  parse_status = parsed;
  document = document;
  itinerary = none;
  review = none;
  active_leg_count = 0;
  next_poll_at = none;
  idempotent_replay = true;
}

abbrev outcome : ActivationOutcome
outcome = made_outcome activation.0 fallback

activates : activation ≡ (ok outcome, activation.1)
unfolding calendar numerals activate_trip get_trip first_row parse_and_register put_pdf clean_etag
    lookup insert has_authority register save_outcome save_parsed_trip insert_parsed insert_legs
    insert_leg new_leg save_notification_preference parse_timestamp confirm trip_view
    trace_transaction
activates = refl

registers_trip : outcome.idempotent_replay ≡ false
unfolding calendar numerals activate_trip get_trip first_row parse_and_register put_pdf clean_etag
    lookup insert has_authority register save_outcome save_parsed_trip insert_parsed insert_legs
    insert_leg new_leg save_notification_preference parse_timestamp confirm trip_view
    trace_transaction activation_from_view
registers_trip = refl

activate_trip-again_example :
    activate_trip calendar same_text same_text "travel" quiet "%PDF-2" metadata 9
      (some preference)
      activation.1
    ≡ (ok (record outcome { status = already_active; idempotent_replay = true }), activation.1)
activate_trip-again_example =
    activate_trip-again calendar same_text same_text "travel" quiet quiet "%PDF-1" "%PDF-2" metadata
      7 9 (some preference) empty_world activation.1 outcome activates registers_trip

accepts :
    validate_sms_notification_input same_text (some "+447700900123") true
    ≡ ok (some "+447700900123")
unfolding validate_sms_notification_input check_format is_e164
accepts = refl

refuses : validate_sms_notification_input same_text (some "+0447700900") true ≡ raise value_error
unfolding validate_sms_notification_input check_format is_e164
refuses = refl

preference_of-IsConsented_example :
    ((true ≡ true)
      × ((kept : SmsNotificationPreference) × (preference_of calendar 7 (some "+447700900123")
            ≡ some kept)
          × (is_e164 kept.phone_e164 ≡ true)))
    ⊎ ((true ≡ false) × (preference_of calendar 7 (some "+447700900123") ≡ none))
preference_of-IsConsented_example =
    preference_of-IsConsented same_text calendar 7 (some "+447700900123") true
      (some "+447700900123") accepts
