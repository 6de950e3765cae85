-- ===== src/Trips/Inserts.antt =====
-- How the registration of a trip keeps the tables of the trips consistent.
use mathlib.Core.Path.{subst}
use flight_multi_agent.Base.{
  ℕ, ◌≡◌, inl, inr, refl, sym, String, Bool, true, false, Option, List, [], ◌∷◌, any, All, arith,
  eq_iff, str_eq, Bool-cases, All-weaken,
}
use flight_multi_agent.Base.Json.{Fields}
use flight_multi_agent.Base.Result.{ok, >>=-eq-ok, ok-ensures}
use flight_multi_agent.Clock.{parse_timestamp}
use flight_multi_agent.Schedule.{Leg, same_leg}
use flight_multi_agent.Trips.{
  Calendar, DocumentObjectRef, ItineraryLeg, CanonicalItinerary, SmsNotificationPreference, TripRow,
  Database, is_trip, is_leg_of,
}
use flight_multi_agent.Trips.Writes.{
  new_leg, insert_leg, insert_legs, save_parsed_trip, save_review_trip, parsed_row, review_row,
}
use flight_multi_agent.Trips.Saved.{save_parsed_trip-cases, save_review_trip-cases}
use flight_multi_agent.Trips.Polls.{is_active_leg_of}
use flight_multi_agent.Trips.Consistent.{
  IsTimed, IsOwned, IsSettled, IsConsistent, IsSettled-same, unlisted-legs,
}

module _ (calendar : Calendar) (trip_id : String) (created_at : ℕ) where
  abbrev new_row : ItineraryLeg → ℕ → ℕ → Leg
  new_row = new_leg calendar trip_id created_at

  pub insert_leg-row :
      (leg : ItineraryLeg) (legs next : List Leg)
      → insert_leg calendar trip_id created_at leg legs ≡ ok next
      → (a : ℕ) × (b : ℕ) × (next ≡ new_row leg a b ∷ legs)
  unfolding insert_leg
  insert_leg-row leg legs next inserted =
      let (departure, first, rest) =
        >>=-eq-ok (parse_timestamp calendar.iso leg.scheduled_departure_at) _ inserted in
      let (arrival, second, last) =
        >>=-eq-ok (parse_timestamp calendar.iso leg.scheduled_arrival_at) _ rest in
      let row = new_row leg departure arrival in
      elim (Bool-cases (any (same_leg row) legs)) [
        | inl taken ↦ absurd (ground arith)
        | inr free ↦ (departure, arrival, ground arith)
      ]

  -- What each new row keeps holds of the table after all insertions.
  pub insert_legs-keeps :
      (P : List Leg → Type 0)
      → ((leg : ItineraryLeg) (a b : ℕ) (legs : List Leg) → P legs → P (new_row leg a b ∷ legs))
      → (leaves : List ItineraryLeg) (legs next : List Leg)
      → insert_legs calendar trip_id created_at leaves legs ≡ ok next
      → P legs
      → P next
  unfolding insert_legs
  insert_legs-keeps P keeps [] legs next inserted holds = ok-ensures P holds inserted
  insert_legs-keeps P keeps (leg ∷ leaves) legs next inserted holds =
      let (middle, first, rest) =
        >>=-eq-ok (insert_leg calendar trip_id created_at leg legs) _ inserted in
      let (a, b, same) = insert_leg-row leg legs middle first in
      insert_legs-keeps P keeps leaves middle next rest
        (subst P (sym same) (keeps leg a b legs holds))

  pub insert_legs-active :
      (leg : ItineraryLeg) (leaves : List ItineraryLeg) (legs next : List Leg)
      → insert_legs calendar trip_id created_at (leg ∷ leaves) legs ≡ ok next
      → any (is_active_leg_of trip_id) next ≡ true
  unfolding insert_legs new_leg
  insert_legs-active leg leaves legs next inserted =
      let (middle, first, rest) =
        >>=-eq-ok (insert_leg calendar trip_id created_at leg legs) _ inserted in
      let (a, b, same) = insert_leg-row leg legs middle first in
      insert_legs-keeps (λ table. any (is_active_leg_of trip_id) table ≡ true)
        (λ leg a b legs found. ground arith) leaves middle next rest
        (subst (λ table. any (is_active_leg_of trip_id) table ≡ true) (sym same)
          (ground (arith, eq_iff trip_id trip_id)))

  module _ (leaves : List ItineraryLeg) (legs next : List Leg)
      (inserted : insert_legs calendar trip_id created_at leaves legs ≡ ok next) where
    pub insert_legs-others :
        (other : String)
        → str_eq trip_id other ≡ false
        → (any (is_active_leg_of other) next ≡ any (is_active_leg_of other) legs)
          × (any (is_leg_of other) next ≡ any (is_leg_of other) legs)
    unfolding new_leg
    insert_legs-others other apart =
        insert_legs-keeps
          (λ table.
            (any (is_active_leg_of other) table ≡ any (is_active_leg_of other) legs)
            × (any (is_leg_of other) table ≡ any (is_leg_of other) legs))
          (λ leg a b table (going, listed). (ground arith, ground arith)) leaves legs next inserted
          (refl, refl)

    pub insert_legs-IsTimed : All IsTimed legs → All IsTimed next
    unfolding new_leg
    insert_legs-IsTimed times =
        insert_legs-keeps (All IsTimed) (λ leg a b table each. (refl, each)) leaves legs next
          inserted times

    pub insert_legs-IsOwned :
        (trips : List TripRow)
        → any (is_trip trip_id) trips ≡ true
        → All (IsOwned trips) legs
        → All (IsOwned trips) next
    unfolding new_leg
    insert_legs-IsOwned trips listed owned =
        insert_legs-keeps (All (IsOwned trips)) (λ leg a b table each. (listed, each)) leaves legs
          next inserted owned

-- A row that is put before others keeps their legs owned.
IsOwned-more :
    (row : TripRow) (trips : List TripRow) (legs : List Leg)
    → All (IsOwned trips) legs
    → All (IsOwned (row ∷ trips)) legs
IsOwned-more row trips legs owned =
    All-weaken (IsOwned trips) (IsOwned (row ∷ trips)) legs (λ leg own. ground arith) owned

-- The rows of other trips.
apart-rows :
    (trip_id : String) (trips : List TripRow)
    → any (is_trip trip_id) trips ≡ false
    → All (λ row. str_eq trip_id row.trip_id ≡ false) trips
apart-rows trip_id [] none_of = tt
apart-rows trip_id (row ∷ trips) none_of = (
  ground (arith, eq_iff trip_id row.trip_id, eq_iff row.trip_id trip_id),
  apart-rows trip_id trips (ground arith),
)

rows-kept :
    (legs next : List Leg) (trip_id : String) (trips : List TripRow)
    → ((other : String)
        → str_eq trip_id other ≡ false
        → (any (is_active_leg_of other) next ≡ any (is_active_leg_of other) legs)
          × (any (is_leg_of other) next ≡ any (is_leg_of other) legs))
    → All (λ row. str_eq trip_id row.trip_id ≡ false) trips
    → All (IsSettled legs) trips
    → All (IsSettled next) trips
rows-kept legs next trip_id [] same apart settled = tt
rows-kept legs next trip_id (row ∷ trips) same apart settled =
    let (going, listed) = same row.trip_id apart.0 in
    (
      IsSettled-same legs next row going listed settled.0,
      rows-kept legs next trip_id trips same apart.1 settled.1,
    )

module _ (calendar : Calendar) (db : Database) (consistent : IsConsistent db) where
  -- The itinerary has a leg.
  pub save_parsed_trip-IsConsistent :
      (itinerary : CanonicalItinerary) (document : DocumentObjectRef) (created_at : ℕ)
      (preference : Option SmsNotificationPreference) (inserted : Bool) (next : Database)
      (leg : ItineraryLeg) (leaves : List ItineraryLeg)
      → itinerary.legs ≡ leg ∷ leaves
      → save_parsed_trip calendar itinerary document created_at preference db ≡ ok (inserted, next)
      → IsConsistent next
  save_parsed_trip-IsConsistent itinerary document created_at preference inserted next leg leaves
        has saved =
      let id = itinerary.trip_id in
      let (times, owned, settled) = consistent in
      elim (save_parsed_trip-cases calendar document created_at preference db next inserted
        itinerary saved) [
          | inl (taken, refused, same) ↦ subst IsConsistent (sym same) consistent
          | inr (free, done, (legs, contacts, first, second, same)) ↦
              let row = parsed_row itinerary document created_at in
              let going =
                insert_legs-active calendar id created_at leg leaves db.legs legs
                  (subst (λ l. insert_legs calendar id created_at l db.legs ≡ ok legs) has first) in
              let kept =
                rows-kept db.legs legs id db.trips
                  (insert_legs-others calendar id created_at itinerary.legs db.legs legs first)
                  (apart-rows id db.trips free) settled in
              let owners =
                insert_legs-IsOwned calendar id created_at itinerary.legs db.legs legs first
                  (row ∷ db.trips) (ground (arith, eq_iff id id))
                  (IsOwned-more row db.trips db.legs owned) in
              subst IsConsistent (sym same) (
                insert_legs-IsTimed calendar id created_at itinerary.legs db.legs legs first times,
                owners,
                (going, kept),
              )
        ]

  pub save_review_trip-IsConsistent :
      (trip_id traveler_ref : String) (document : DocumentObjectRef) (review : Fields)
      (created_at : ℕ) (preference : Option SmsNotificationPreference) (inserted : Bool)
      (next : Database)
      → save_review_trip calendar trip_id traveler_ref document review created_at preference db
        ≡ ok (inserted, next)
      → IsConsistent next
  save_review_trip-IsConsistent trip_id traveler_ref document review created_at preference inserted
        next saved =
      let (times, owned, settled) = consistent in
      elim (save_review_trip-cases calendar document created_at preference db next inserted trip_id
        traveler_ref review saved) [
          | inl (taken, refused, same) ↦ subst IsConsistent (sym same) consistent
          | inr (free, done, (contacts, first, same)) ↦
              let row = review_row trip_id traveler_ref document review created_at in
              subst IsConsistent (sym same) (
                times,
                IsOwned-more row db.trips db.legs owned,
                (unlisted-legs db.trips trip_id db.legs free owned, settled),
              )
        ]
