-- ===== src/Trips.antt =====
-- flight_agent/trip_store.py and flight_agent/trip_contracts.py: the trips, their legs, contacts
-- and recorded polls, and what is read of them.
--
-- The tables of the database are lists of rows, whose order means nothing. A row of `trips` has the
-- itinerary as it was given, an airport code fills its column, a time is an instant in
-- microseconds, and the views have its text.
pub mod Writes
pub mod Polls
pub mod Consistent
pub mod Updates
pub mod Completed
pub mod Saved
pub mod Inserts
pub mod Reached
pub mod Departures
pub mod RoundTrip
use Prim.Native.Nat.{compare, Ordering}
use Prim.Native.String.{compare as compare_text}
use flight_multi_agent.Base.{
  ℕ, String, Bool, true, false, Option, none, some, List, [], ◌∷◌, map, any, filter, str_eq,
  if◌then◌else◌,
}
use flight_multi_agent.Base.Json.{Json, Fields}
use flight_multi_agent.Base.Text.{fstring, replace}
use flight_multi_agent.Base.Assoc.{Dict}
use flight_multi_agent.Clock.{IsoFormat, format_timestamp}
use flight_multi_agent.Schedule.{Leg, MonitoringStatus, ScheduledLeg, to_second}
use flight_multi_agent.Monitoring.{PollRequest}

-- `datetime.date().isoformat()` and `datetime.isoformat(timespec="microseconds")` of an instant,
-- beside the formats of whole seconds.
pub record Calendar : Type 0 where
  pub iso : IsoFormat
  pub date : ℕ → String
  pub microseconds : ℕ → String

-- `DocumentMetadata`; its `media_type` is a constant.
pub record DocumentMetadata : Type 0 where
  pub trip_id : String
  pub traveler_ref : String
  pub fixture_id : String
  pub filename : String
  pub sha256 : String

pub record DocumentObjectRef : Type 0 where
  pub bucket : String
  pub key : String
  pub sha256 : String
  pub etag : Option String

-- The fields of a booked leg that the trips use.
pub record ItineraryLeg : Type 0 where
  pub leg_id : String
  pub flight_number : String
  pub origin : String
  pub destination : String
  pub scheduled_departure_at : String
  pub scheduled_arrival_at : String

pub record CanonicalItinerary : Type 0 where
  pub trip_id : String
  pub traveler_ref : String
  pub confirmation_codes : List String
  pub legs : List ItineraryLeg

-- `SmsNotificationPreference`; its channel is always "sms".
pub record SmsNotificationPreference : Type 0 where
  pub phone_e164 : String
  pub consent_granted_at : String

pub data TripStatus : Type 0 where
  trip_active trip_review_required trip_completed : TripStatus

-- A row of `trips`
pub record TripRow : Type 0 where
  pub trip_id : String
  pub traveler_ref : String
  pub status : TripStatus
  pub document : DocumentObjectRef
  pub itinerary : Option CanonicalItinerary
  pub review : Option Fields
  pub created_at : ℕ
  pub updated_at : ℕ

-- A row of `trip_notification_contacts`
pub record ContactRow : Type 0 where
  pub trip_id : String
  pub phone_e164 : String
  pub consent_granted_at : ℕ
  pub created_at : ℕ

-- `MonitoringPollOutcome` as it comes back from the monitoring agent
pub record AgentOutcome : Type 0 where
  pub status : String
  pub request : PollRequest
  pub observation : Option Fields
  pub candidate : Option Fields
  pub decision : Option Fields
  pub confirmed_event : Option Fields
  pub notification : Option Fields
  pub search_record : Option Fields
  pub error_code : Option String
  pub orchestration : Fields

-- A row of `monitoring_runs`: a run with an outcome is completed, one with an error has failed.
pub data RunResult : Type 0 where
  run_completed : AgentOutcome → RunResult
  run_failed : String → RunResult

pub record RunRow : Type 0 where
  pub poll_key : String
  pub trip_id : String
  pub leg_id : String
  pub result : RunResult
  pub recorded_at : ℕ

pub record Database : Type 0 where
  pub trips : List TripRow
  pub contacts : List ContactRow
  pub legs : List Leg
  pub runs : List RunRow
  pub contexts : Dict (Dict String)

-- The first row that a test finds.
unfoldable pub first_row : {A : Type 0} → (A → Bool) → List A → Option A
first_row p [] = none
first_row p (row ∷ rows) = let later = first_row p rows in if p row then some row else later

abbrev pub is_trip : String → TripRow → Bool
is_trip trip_id row = str_eq row.trip_id trip_id

abbrev pub is_leg_of : String → Leg → Bool
is_leg_of trip_id leg = str_eq leg.trip_id trip_id

abbrev pub is_contact_of : String → ContactRow → Bool
is_contact_of trip_id row = str_eq row.trip_id trip_id

-- `StoredLegView`
pub record StoredLegView : Type 0 where
  pub leg_id : String
  pub flight_iata : String
  pub origin : String
  pub destination : String
  pub monitoring_status : MonitoringStatus
  pub next_poll_at : Option String
  pub last_poll_at : Option String
  pub poll_count : ℕ
  pub last_poll_status : Option String

-- `StoredTripView`
pub record StoredTripView : Type 0 where
  pub trip_id : String
  pub traveler_ref : String
  pub status : TripStatus
  pub document : DocumentObjectRef
  pub itinerary : Option CanonicalItinerary
  pub review : Option Fields
  pub legs : List StoredLegView
  pub created_at : String
  pub updated_at : String

pub record NotificationRecipient : Type 0 where
  pub trip_id : String
  pub recipient_ref : String
  pub phone_e164 : String
  pub consent_granted_at : String

-- `ORDER BY scheduled_departure_at, leg_id`
abbrev departs_before : Leg → Leg → Bool
departs_before a b =
    let by_leg : Bool = elim (compare_text a.leg_id b.leg_id) [ Ordering.gt ↦ false | _ ↦ true ] in
    elim (compare a.scheduled_departure_at b.scheduled_departure_at) [
      | Ordering.lt ↦ true
      | Ordering.eq ↦ by_leg
      | Ordering.gt ↦ false
    ]

unfoldable pub insert_departure : Leg → List Leg → List Leg
insert_departure leg [] = leg ∷ []
insert_departure leg (first ∷ legs) =
    let later = first ∷ insert_departure leg legs in
    if departs_before leg first then leg ∷ first ∷ legs else later

unfoldable pub by_departure : List Leg → List Leg
by_departure [] = []
by_departure (leg ∷ legs) = insert_departure leg (by_departure legs)

module _ (calendar : Calendar) where
  -- `format_timestamp`: the text of the whole second.
  abbrev pub second_text : ℕ → String
  second_text instant = format_timestamp calendar.iso (to_second instant)

  unfoldable pub format_poll_identity : ℕ → String
  format_poll_identity instant = replace (calendar.microseconds instant) "+00:00" "Z"

  abbrev pub optional_second : Option ℕ → Option String
  optional_second none = none
  optional_second (some instant) = some (second_text instant)

  unfoldable pub leg_view : Leg → StoredLegView
  leg_view leg = record {
    leg_id = leg.leg_id;
    flight_iata = leg.flight_iata;
    origin = leg.origin;
    destination = leg.destination;
    monitoring_status = leg.monitoring_status;
    next_poll_at = optional_second leg.next_poll_at;
    last_poll_at = optional_second leg.last_poll_at;
    poll_count = leg.poll_count;
    last_poll_status = leg.last_poll_status;
  }

  unfoldable pub trip_view : TripRow → List Leg → StoredTripView
  trip_view row legs = record {
    trip_id = row.trip_id;
    traveler_ref = row.traveler_ref;
    status = row.status;
    document = row.document;
    itinerary = row.itinerary;
    review = row.review;
    legs = map leg_view (by_departure (filter (is_leg_of row.trip_id) legs));
    created_at = second_text row.created_at;
    updated_at = second_text row.updated_at;
  }

  unfoldable pub get_trip : Database → String → Option StoredTripView
  get_trip db trip_id = elim (first_row (is_trip trip_id) db.trips) [
    | none ↦ none
    | some row ↦ some (trip_view row db.legs)
  ]

  unfoldable pub get_notification_recipient : Database → String → Option NotificationRecipient
  get_notification_recipient db trip_id = elim (first_row (is_contact_of trip_id) db.contacts) [
    | none ↦ none
    | some row ↦ some (record {
      trip_id = row.trip_id;
      recipient_ref = fstring ("traveler:" ∷ row.trip_id ∷ []);
      phone_e164 = row.phone_e164;
      consent_granted_at = second_text row.consent_granted_at;
    })
  ]

  -- `ScheduledLeg.poll_key`
  unfoldable pub poll_key : ScheduledLeg → String
  poll_key leg =
      fstring (leg.trip_id ∷ ":" ∷ leg.leg_id ∷ ":" ∷ format_poll_identity leg.due_at ∷ [])
