-- ===== src/Trips/Writes.antt =====
-- flight_agent/trip_store.py: the transactions that register a trip. One that raises is rolled
-- back.
use flight_multi_agent.Base.{
  ℕ, String, Bool, true, false, Option, none, some, List, [], ◌∷◌, any, if◌then◌else◌,
}
use flight_multi_agent.Base.Json.{Fields}
use flight_multi_agent.Base.Result.{Result, ok, raise, ◌>>=◌, database_error}
use flight_multi_agent.Clock.{parse_timestamp}
use flight_multi_agent.Schedule.{Leg, active, same_leg}
use flight_multi_agent.Trips.{
  Calendar, DocumentObjectRef, ItineraryLeg, CanonicalItinerary, SmsNotificationPreference, TripRow,
  trip_active, trip_review_required, ContactRow, Database, is_trip, is_contact_of,
}

-- The row of a leg that is registered, with its times read.
unfoldable pub new_leg : Calendar → String → ℕ → ItineraryLeg → ℕ → ℕ → Leg
new_leg calendar trip_id created_at leg departure arrival = record {
  trip_id = trip_id;
  leg_id = leg.leg_id;
  flight_iata = leg.flight_number;
  flight_date = calendar.date departure;
  origin = leg.origin;
  destination = leg.destination;
  scheduled_departure_at = departure;
  scheduled_arrival_at = arrival;
  monitoring_status = active;
  next_poll_at = some created_at;
  lease_until = none;
  last_poll_at = none;
  poll_count = 0;
  last_poll_status = none;
}

abbrev pub parsed_row : CanonicalItinerary → DocumentObjectRef → ℕ → TripRow
parsed_row itinerary document created_at = record {
  trip_id = itinerary.trip_id;
  traveler_ref = itinerary.traveler_ref;
  status = trip_active;
  document = document;
  itinerary = some itinerary;
  review = none;
  created_at = created_at;
  updated_at = created_at;
}

abbrev pub review_row : String → String → DocumentObjectRef → Fields → ℕ → TripRow
review_row trip_id traveler_ref document review created_at = record {
  trip_id = trip_id;
  traveler_ref = traveler_ref;
  status = trip_review_required;
  document = document;
  itinerary = none;
  review = some review;
  created_at = created_at;
  updated_at = created_at;
}

module _ (calendar : Calendar) where
  -- A second row with the keys of another is refused.
  unfoldable pub insert_leg : String → ℕ → ItineraryLeg → List Leg → Result (List Leg)
  insert_leg trip_id created_at leg legs = do
    departure ← parse_timestamp calendar.iso leg.scheduled_departure_at
    arrival ← parse_timestamp calendar.iso leg.scheduled_arrival_at
    let row = new_leg calendar trip_id created_at leg departure arrival in
        if any (same_leg row) legs then raise database_error else ok (row ∷ legs)

  unfoldable pub insert_legs : String → ℕ → List ItineraryLeg → List Leg → Result (List Leg)
  insert_legs trip_id created_at [] legs = ok legs
  insert_legs trip_id created_at (leg ∷ rest) legs = do
    inserted ← insert_leg trip_id created_at leg legs
    insert_legs trip_id created_at rest inserted

  unfoldable pub save_notification_preference :
      String → Option SmsNotificationPreference → ℕ → List ContactRow → Result (List ContactRow)
  save_notification_preference trip_id none created_at contacts = ok contacts
  save_notification_preference trip_id (some preference) created_at contacts = do
    consented ← parse_timestamp calendar.iso preference.consent_granted_at
    let row : ContactRow = record {
      trip_id = trip_id;
      phone_e164 = preference.phone_e164;
      consent_granted_at = consented;
      created_at = created_at;
    } in
        if any (is_contact_of trip_id) contacts then raise database_error else ok (row ∷ contacts)

  -- The statements after the insertion of the trip's row
  unfoldable pub insert_parsed :
      CanonicalItinerary
      → DocumentObjectRef
      → ℕ
      → Option SmsNotificationPreference
      → Database
      → Result (Bool × Database)
  insert_parsed itinerary document created_at preference db = do
    legs ← insert_legs itinerary.trip_id created_at itinerary.legs db.legs
    contacts ← save_notification_preference itinerary.trip_id preference created_at db.contacts
    ok (
      true,
      record db {
        trips = parsed_row itinerary document created_at ∷ db.trips;
        legs = legs;
        contacts = contacts;
      },
    )

  unfoldable pub insert_review :
      String
      → String
      → DocumentObjectRef
      → Fields
      → ℕ
      → Option SmsNotificationPreference
      → Database
      → Result (Bool × Database)
  insert_review trip_id traveler_ref document review created_at preference db = do
    contacts ← save_notification_preference trip_id preference created_at db.contacts
    ok (
      true,
      record db {
        trips = review_row trip_id traveler_ref document review created_at ∷ db.trips;
        contacts = contacts;
      },
    )

  -- Whether the trip was inserted, and the database after the transaction.
  unfoldable pub save_parsed_trip :
      CanonicalItinerary
      → DocumentObjectRef
      → ℕ
      → Option SmsNotificationPreference
      → Database
      → Result (Bool × Database)
  save_parsed_trip itinerary document created_at preference db =
      if any (is_trip itinerary.trip_id) db.trips
      then ok (false, db)
      else insert_parsed itinerary document created_at preference db

  unfoldable pub save_review_trip :
      String
      → String
      → DocumentObjectRef
      → Fields
      → ℕ
      → Option SmsNotificationPreference
      → Database
      → Result (Bool × Database)
  save_review_trip trip_id traveler_ref document review created_at preference db =
      if any (is_trip trip_id) db.trips
      then ok (false, db)
      else insert_review trip_id traveler_ref document review created_at preference db
