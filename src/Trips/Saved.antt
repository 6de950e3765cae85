-- ===== src/Trips/Saved.antt =====
-- What the registration of a trip leaves in the database, by whether the trip was inserted.
use flight_multi_agent.Base.{
  ℕ, ◌≡◌, ◌⊎◌, inl, inr, String, Bool, true, false, Option, List, ◌∷◌, any, arith, Bool-cases,
}
use flight_multi_agent.Base.Json.{Fields}
use flight_multi_agent.Base.Result.{ok, >>=-eq-ok}
use flight_multi_agent.Schedule.{Leg}
use flight_multi_agent.Trips.{
  Calendar, DocumentObjectRef, CanonicalItinerary, SmsNotificationPreference, ContactRow, Database,
  is_trip,
}
use flight_multi_agent.Trips.Writes.{
  insert_legs, insert_parsed, insert_review, save_notification_preference, save_parsed_trip,
  save_review_trip, parsed_row, review_row,
}

-- A trip that has a row, and the database as it was.
abbrev pub IsRefused : String → Database → Bool → Database → Type 0
IsRefused trip_id db inserted next =
    (any (is_trip trip_id) db.trips ≡ true) × (inserted ≡ false) × (next ≡ db)

module _ (calendar : Calendar) (document : DocumentObjectRef) (created_at : ℕ)
    (preference : Option SmsNotificationPreference) (db next : Database) (inserted : Bool) where
  abbrev pub IsSavedTrip : CanonicalItinerary → Type 0
  IsSavedTrip itinerary =
      (any (is_trip itinerary.trip_id) db.trips ≡ false)
      × (inserted ≡ true)
      × ((legs : List Leg) × (contacts : List ContactRow) × (insert_legs calendar itinerary.trip_id
              created_at itinerary.legs db.legs
            ≡ ok legs)
          × (save_notification_preference calendar itinerary.trip_id preference created_at
                db.contacts
              ≡ ok contacts)
          × (next ≡ record db {
            trips = parsed_row itinerary document created_at ∷ db.trips;
            legs = legs;
            contacts = contacts;
          }))

  abbrev pub IsSavedReview : String → String → Fields → Type 0
  IsSavedReview trip_id traveler_ref review =
      (any (is_trip trip_id) db.trips ≡ false)
      × (inserted ≡ true)
      × ((contacts : List ContactRow) × (save_notification_preference calendar trip_id preference
              created_at db.contacts
            ≡ ok contacts)
          × (next ≡ record db {
            trips = review_row trip_id traveler_ref document review created_at ∷ db.trips;
            contacts = contacts;
          }))

  pub save_parsed_trip-cases :
      (itinerary : CanonicalItinerary)
      → save_parsed_trip calendar itinerary document created_at preference db ≡ ok (inserted, next)
      → IsRefused itinerary.trip_id db inserted next ⊎ IsSavedTrip itinerary
  unfolding save_parsed_trip insert_parsed
  save_parsed_trip-cases itinerary saved =
      elim (Bool-cases (any (is_trip itinerary.trip_id) db.trips)) [
        | inl taken ↦ inl (taken, ground arith, ground arith)
        | inr free ↦
            let opened : insert_parsed calendar itinerary document created_at preference db
                ≡ ok (inserted, next) =
              ground arith in
            let (legs, first, rest) =
              >>=-eq-ok (insert_legs calendar itinerary.trip_id created_at itinerary.legs db.legs) _
                opened in
            let (contacts, second, last) =
              >>=-eq-ok
                (save_notification_preference calendar itinerary.trip_id preference created_at
                  db.contacts)
                _ rest in
            inr (free, ground arith, (legs, contacts, first, second, ground arith))
      ]

  pub save_review_trip-cases :
      (trip_id traveler_ref : String) (review : Fields)
      → save_review_trip calendar trip_id traveler_ref document review created_at preference db
        ≡ ok (inserted, next)
      → IsRefused trip_id db inserted next ⊎ IsSavedReview trip_id traveler_ref review
  unfolding save_review_trip insert_review
  save_review_trip-cases trip_id traveler_ref review saved =
      elim (Bool-cases (any (is_trip trip_id) db.trips)) [
        | inl taken ↦ inl (taken, ground arith, ground arith)
        | inr free ↦
            let opened : insert_review calendar trip_id traveler_ref document review created_at
                  preference db
                ≡ ok (inserted, next) =
              ground arith in
            let (contacts, first, last) =
              >>=-eq-ok
                (save_notification_preference calendar trip_id preference created_at db.contacts) _
                opened in
            inr (free, ground arith, (contacts, first, ground arith))
      ]
