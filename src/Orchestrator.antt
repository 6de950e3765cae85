-- ===== src/Orchestrator.antt =====
-- flight_agent/trip_orchestrator.py: the activation of a trip.
--
-- `World` is what the orchestrator and its document agent change. What the agent answers, and what
-- other transactions do meanwhile, are in `Outside`. The texts of the trace are left out, but for
-- the headers that are stored for the trip.
pub mod Activate
pub mod Registered
pub mod Activated
pub mod PollResults
pub mod Claim
pub mod Claimed
pub mod Tick
pub mod Reported
pub mod Ticks
pub mod Upload
pub mod Consent
use Prim.Native.String.{compare as compare_text}
use Prim.Native.Nat.{Ordering}
use flight_multi_agent.Base.{
  ℕ, zero, suc, String, Bool, true, false, not, ◌&&◌, ◌||◌, Option, none, some, List, [], ◌∷◌,
  str_eq, if◌then◌else◌,
}
use flight_multi_agent.Base.Json.{
  Json, Fields, no_fields, field, Values, no_values, value, json_text, array,
}
use flight_multi_agent.Base.Text.{truthy}
use flight_multi_agent.Base.Assoc.{Dict}
use flight_multi_agent.Schedule.{is_active}
use flight_multi_agent.Trips.{
  Calendar, DocumentMetadata, DocumentObjectRef, CanonicalItinerary, SmsNotificationPreference,
  TripStatus, trip_active, trip_review_required, trip_completed, Database, StoredLegView,
  StoredTripView,
}
use flight_multi_agent.DocumentStore.{S3, StoredObject}

pub data ParseStatus : Type 0 where
  parsed review_required : ParseStatus

-- `ParseOutcome`, less its orchestration
pub record ParseOutcome : Type 0 where
  pub status : ParseStatus
  pub document : DocumentMetadata
  pub itinerary : Option CanonicalItinerary
  pub review : Option Fields

pub data ActivationStatus : Type 0 where
  activated already_active activation_review : ActivationStatus

-- `TripActivationOutcome`
pub record ActivationOutcome : Type 0 where
  pub status : ActivationStatus
  pub trip_id : String
  pub trip_status : TripStatus
  pub parse_status : ParseStatus
  pub document : DocumentObjectRef
  pub itinerary : Option CanonicalItinerary
  pub review : Option Fields
  pub active_leg_count : ℕ
  pub next_poll_at : Option String
  pub idempotent_replay : Bool

abbrev is_review : TripStatus → Bool
is_review trip_review_required = true
is_review _ = false

-- The times of the legs that have a next poll
abbrev next_times : List StoredLegView → List String
next_times [] = []
next_times (leg ∷ legs) =
    let rest = next_times legs in
    elim leg.next_poll_at [ none ↦ rest | some at ↦ if truthy at then at ∷ rest else rest ]

abbrev earlier : String → String → String
earlier a b = elim (compare_text b a) [ Ordering.lt ↦ b | _ ↦ a ]

abbrev earliest_time : List String → Option String
earliest_time [] = none
earliest_time (at ∷ times) = elim (earliest_time times) [
  | none ↦ some at
  | some t ↦ some (earlier at t)
]

abbrev count_active : List StoredLegView → ℕ
count_active [] = 0
count_active (leg ∷ legs) =
    let rest = count_active legs in if is_active leg.monitoring_status then suc rest else rest

unfoldable pub activation_from_view : StoredTripView → Bool → ActivationOutcome
activation_from_view trip replay =
    let review = is_review trip.status in
    record {
      status = if replay then already_active else if review then activation_review else activated;
      trip_id = trip.trip_id;
      trip_status = if review then trip_review_required else trip_active;
      parse_status = if review then review_required else parsed;
      document = trip.document;
      itinerary = trip.itinerary;
      review = trip.review;
      active_leg_count = count_active trip.legs;
      next_poll_at = earliest_time (next_times trip.legs);
      idempotent_replay = replay;
    }

pub record World : Type 0 where
  pub db : Database
  pub objects : Dict StoredObject
  -- the documents that the document agent was asked to parse, newest first
  pub parses : List DocumentMetadata

-- `parse` is `none` where the document agent raises.
pub record Outside : Type 0 where
  pub s3 : S3
  pub parse : String → DocumentMetadata → Option ParseOutcome
  pub meanwhile : Database → Database
  pub trace_headers : Dict String

abbrev pub same_metadata : DocumentMetadata → DocumentMetadata → Bool
same_metadata a b =
    str_eq a.trip_id b.trip_id
    && (str_eq a.traveler_ref b.traveler_ref
        && (str_eq a.fixture_id b.fixture_id
            && (str_eq a.filename b.filename && str_eq a.sha256 b.sha256)))

-- The checks of the agent's authority: the document, and the trip and traveller of an itinerary.
unfoldable pub has_authority : DocumentMetadata → ParseOutcome → Bool
has_authority metadata outcome =
    let of_trip : Bool = elim outcome.itinerary [
      | none ↦ true
      | some i ↦ str_eq i.trip_id metadata.trip_id && str_eq i.traveler_ref metadata.traveler_ref
    ] in
    same_metadata outcome.document metadata && of_trip

abbrev default_review : Fields
default_review =
    field "reason_codes" (array (value (json_text "PARSE_REVIEW_REQUIRED") no_values)) no_fields

abbrev pub review_of : Option Fields → Fields
review_of none = default_review
review_of (some no_fields) = default_review
review_of (some (field key held rest)) = field key held rest

-- The itinerary that is saved as parsed
abbrev pub parsed_itinerary : ParseOutcome → Option CanonicalItinerary
parsed_itinerary outcome = elim outcome.status [
  | parsed ↦ outcome.itinerary
  | review_required ↦ none
]
