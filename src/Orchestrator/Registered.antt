-- ===== src/Orchestrator/Registered.antt =====
-- The trip that the registration of an activation stores.
use mathlib.Core.Path.{subst}
use flight_multi_agent.Base.{
  ℕ, ◌≡◌, inl, inr, refl, sym, ap, ◌∙◌, String, true, false, Option, none, some, List, ◌∷◌, any,
  eq_iff, arith, Bool-cases, Option-cases,
}
use flight_multi_agent.Base.Assoc.{Dict}
use flight_multi_agent.Base.Result.{ok, >>=-eq-ok}
use flight_multi_agent.Clock.{parse_timestamp}
use flight_multi_agent.Trips.{
  Calendar, DocumentMetadata, DocumentObjectRef, CanonicalItinerary, SmsNotificationPreference,
  TripRow, ContactRow, Database, StoredTripView, is_contact_of, first_row, trip_view, get_trip,
  get_notification_recipient,
}
use flight_multi_agent.Trips.Writes.{
  save_notification_preference, save_parsed_trip, save_review_trip, parsed_row, review_row,
}
use flight_multi_agent.Trips.Saved.{save_parsed_trip-cases, save_review_trip-cases}
use flight_multi_agent.Trips.Polls.{trace_transaction}
use flight_multi_agent.Orchestrator.{ParseOutcome, has_authority, review_of, parsed_itinerary}
use flight_multi_agent.Orchestrator.Activate.{prefers_other, save_outcome}

itinerary-parsed :
    (outcome : ParseOutcome) (itinerary : CanonicalItinerary)
    → parsed_itinerary outcome ≡ some itinerary
    → outcome.itinerary ≡ some itinerary
itinerary-parsed outcome itinerary read = ground arith

module _ (calendar : Calendar) where
  get_trip-first :
      (db : Database) (row : TripRow) (trips : List TripRow) (trip_id : String)
      → db.trips ≡ row ∷ trips
      → row.trip_id ≡ trip_id
      → get_trip calendar db trip_id ≡ some (trip_view calendar row db.legs)
  unfolding get_trip first_row
  get_trip-first db row trips trip_id first named =
      let own = (eq_iff row.trip_id trip_id).1 named in ground arith

  preferred-saved :
      (trip_id : String) (preference : Option SmsNotificationPreference) (at : ℕ)
      (contacts : List ContactRow) (db : Database)
      → save_notification_preference calendar trip_id preference at contacts ≡ ok db.contacts
      → prefers_other preference (get_notification_recipient calendar db trip_id) ≡ false
  unfolding save_notification_preference prefers_other get_notification_recipient first_row
  preferred-saved trip_id none at contacts db saved = refl
  preferred-saved trip_id (some preference) at contacts db saved =
      let (consented, first, rest) =
        >>=-eq-ok (parse_timestamp calendar.iso preference.consent_granted_at) _ saved in
      let own = (eq_iff trip_id trip_id).1 refl in
      let same = (eq_iff preference.phone_e164 preference.phone_e164).1 refl in
      elim (Bool-cases (any (is_contact_of trip_id) contacts)) [
        | inl taken ↦ absurd (ground arith)
        | inr free ↦ ground arith
      ]

  -- The trip and the contact that an insertion leaves, of the traveller of the metadata.
  abbrev pub IsOf : DocumentMetadata → Option SmsNotificationPreference → Database → Type 0
  IsOf metadata preference db =
      (view : StoredTripView) × (get_trip calendar db metadata.trip_id ≡ some view)
      × (view.traveler_ref ≡ metadata.traveler_ref)
      × (prefers_other preference (get_notification_recipient calendar db metadata.trip_id) ≡ false)

  pub save_outcome-IsOf :
      (metadata : DocumentMetadata) (outcome : ParseOutcome) (document : DocumentObjectRef) (at : ℕ)
      (preference : Option SmsNotificationPreference) (db next : Database)
      → has_authority metadata outcome ≡ true
      → save_outcome calendar metadata outcome document at preference db ≡ ok (true, next)
      → IsOf metadata preference next
  unfolding save_outcome has_authority trip_view
  save_outcome-IsOf metadata outcome document at preference db next checked saved =
      let id = metadata.trip_id in
      elim (Option-cases (parsed_itinerary outcome)) [
        | inl unread ↦
            let review = review_of outcome.review in
            let stored : save_review_trip calendar id metadata.traveler_ref document review at
                  preference db
                ≡ ok (true, next) =
              ground arith in
            elim (save_review_trip-cases calendar document at preference db next true id
              metadata.traveler_ref review stored) [
                | inl (taken, refused, same) ↦ absurd (ground arith)
                | inr (free, done, (contacts, kept, same)) ↦
                    let row = review_row id metadata.traveler_ref document review at in
                    (
                      trip_view calendar row next.legs,
                      get_trip-first next row db.trips id (ap (λ d. d.trips) same) refl,
                      refl,
                      preferred-saved id preference at db.contacts next
                          (kept ∙ sym (ap (λ d. ok d.contacts) same)),
                    )
              ]
        | inr (itinerary, read) ↦
            let held = itinerary-parsed outcome itinerary read in
            let same_trip : itinerary.trip_id ≡ id = ground (arith, eq_iff itinerary.trip_id id) in
            let same_traveler : itinerary.traveler_ref ≡ metadata.traveler_ref =
              ground (arith, eq_iff itinerary.traveler_ref metadata.traveler_ref) in
            let stored : save_parsed_trip calendar itinerary document at preference db
                ≡ ok (true, next) =
              ground arith in
            elim (save_parsed_trip-cases calendar document at preference db next true itinerary
              stored) [
                | inl (taken, refused, same) ↦ absurd (ground arith)
                | inr (free, done, (legs, contacts, put, kept, same)) ↦
                    let row = parsed_row itinerary document at in
                    (
                      trip_view calendar row next.legs,
                      get_trip-first next row db.trips id (ap (λ d. d.trips) same) same_trip,
                      same_traveler,
                      subst
                          (λ t.
                            prefers_other preference (get_notification_recipient calendar next t)
                            ≡ false)
                          same_trip
                          (preferred-saved itinerary.trip_id preference at db.contacts next
                            (kept ∙ sym (ap (λ d. ok d.contacts) same))),
                    )
              ]
      ]

  -- The headers of a trace are no part of a trip.
  pub traced-IsOf :
      (metadata : DocumentMetadata) (preference : Option SmsNotificationPreference)
      (headers : Dict String) (db : Database)
      → IsOf metadata preference db
      → IsOf metadata preference (trace_transaction metadata.trip_id headers db)
  unfolding trace_transaction get_trip get_notification_recipient
  traced-IsOf metadata preference headers db held = held
