-- ===== src/Trips/RoundTrip.antt =====
-- What is read of a trip that was registered (`save_parsed_trip`, then `get_trip`).
use mathlib.Core.Path.{subst}
use flight_multi_agent.Base.{
  ℕ, ◌≡◌, inl, inr, refl, sym, ap, ◌∙◌, String, Bool, true, ◌&&◌, Option, none, some, List, [], ◌∷◌,
  ◌++◌, any, All, length, arith, eq_iff, str_eq, map, filter, All-weaken, All-append, length-append,
}
use flight_multi_agent.Base.Result.{ok, >>=-eq-ok, ok-injective}
use flight_multi_agent.Schedule.{Leg, active}
use flight_multi_agent.Trips.{
  Calendar, DocumentObjectRef, ItineraryLeg, CanonicalItinerary, SmsNotificationPreference,
  trip_active, Database, StoredLegView, StoredTripView, is_leg_of, by_departure, leg_view,
  trip_view, second_text, first_row, get_trip,
}
use flight_multi_agent.Trips.Writes.{new_leg, insert_leg, insert_legs, save_parsed_trip, parsed_row}
use flight_multi_agent.Trips.Consistent.{IsConsistent, unlisted-legs}
use flight_multi_agent.Trips.Inserts.{insert_leg-row}
use flight_multi_agent.Trips.Saved.{save_parsed_trip-cases}
use flight_multi_agent.Trips.Departures.{
  by_departure-length, by_departure-any, by_departure-All, filter-rows, any-left, any-right,
  any-mapped-by, length-mapped-by, All-mapped-by, append_assoc,
}

-- A view of the booked leg.
abbrev pub shows : ItineraryLeg → StoredLegView → Bool
shows leg view =
    str_eq view.leg_id leg.leg_id
    && (str_eq view.flight_iata leg.flight_number
        && (str_eq view.origin leg.origin && str_eq view.destination leg.destination))

module _ (calendar : Calendar) (created_at : ℕ) where
  -- The view of a leg that is due at once and was never polled.
  abbrev pub IsFreshView : StoredLegView → Type 0
  IsFreshView view =
      (view.monitoring_status ≡ active)
      × (view.next_poll_at ≡ some (second_text calendar created_at))
      × (view.last_poll_at ≡ none)
      × (view.poll_count ≡ 0)

  module _ (trip_id : String) where
    abbrev shown : ItineraryLeg → List Leg → Bool
    shown leg rows = any (λ row. shows leg (leg_view calendar row)) rows

    abbrev IsNewRow : Leg → Type 0
    IsNewRow row = (row.trip_id ≡ trip_id) × IsFreshView (leg_view calendar row)

    insert_legs-rows :
        (leaves : List ItineraryLeg) (legs next : List Leg)
        → insert_legs calendar trip_id created_at leaves legs ≡ ok next
        → (rows : List Leg) × (next ≡ rows ++ legs)
          × (length rows ≡ length leaves)
          × All IsNewRow rows
          × All (λ leg. shown leg rows ≡ true) leaves
    unfolding insert_legs new_leg leg_view
    insert_legs-rows [] legs next inserted = ([], sym (ok-injective inserted), refl, tt, tt)
    insert_legs-rows (leg ∷ leaves) legs next inserted =
        let (middle, first, rest) =
          >>=-eq-ok (insert_leg calendar trip_id created_at leg legs) _ inserted in
        let (a, b, same) = insert_leg-row calendar trip_id created_at leg legs middle first in
        let row : Leg = new_leg calendar trip_id created_at leg a b in
        let (rows, table, count, new, found) = insert_legs-rows leaves middle next rest in
        let one : List Leg = row ∷ [] in
        (
          rows ++ one,
          table ∙ ap (λ t. rows ++ t) same ∙ append_assoc rows one legs,
          omega (arith, length-append rows one, count),
          All-append IsNewRow rows one new ((refl, (refl, refl, refl, refl)), tt),
          (
            any-right (λ r. shows leg (leg_view calendar r)) rows one
                (ground (
                  arith,
                  eq_iff leg.leg_id leg.leg_id,
                  eq_iff leg.flight_number leg.flight_number,
                  eq_iff leg.origin leg.origin,
                  eq_iff leg.destination leg.destination,
                )),
            All-weaken (λ l. shown l rows ≡ true) (λ l. shown l (rows ++ one) ≡ true) leaves
                (λ l seen. any-left (λ r. shows l (leg_view calendar r)) rows one seen) found,
          ),
        )

module _ (calendar : Calendar) (itinerary : CanonicalItinerary) (document : DocumentObjectRef)
    (created_at : ℕ) (preference : Option SmsNotificationPreference) (db next : Database) where
  -- A trip that is registered is read back: it is active, with the traveller, the document and the
  -- itinerary that were given, and has a view of each leg of the itinerary and no other, each
  -- active, never polled and due at the time of the registration. The tables are consistent before
  -- it.
  pub get_trip-save_parsed_trip :
      IsConsistent db
      → save_parsed_trip calendar itinerary document created_at preference db ≡ ok (true, next)
      → (view : StoredTripView) × (get_trip calendar next itinerary.trip_id ≡ some view)
        × (view.status ≡ trip_active)
        × (view.traveler_ref ≡ itinerary.traveler_ref)
        × (view.document ≡ document)
        × (view.itinerary ≡ some itinerary)
        × (length view.legs ≡ length itinerary.legs)
        × All (IsFreshView calendar created_at) view.legs
        × All (λ leg. any (shows leg) view.legs ≡ true) itinerary.legs
  unfolding get_trip first_row trip_view
  get_trip-save_parsed_trip consistent saved =
      let id = itinerary.trip_id in
      let (times, owned, settled) = consistent in
      elim (save_parsed_trip-cases calendar document created_at preference db next true itinerary
        saved) [
          | inl (taken, refused, same) ↦ absurd (ground arith)
          | inr (free, done, (legs, contacts, first, second, same)) ↦
              let (rows, table, count, new, found) =
                insert_legs-rows calendar created_at id itinerary.legs db.legs legs first in
              let sorted = by_departure rows in
              let view = trip_view calendar (parsed_row itinerary document created_at) legs in
              let mine =
                All-weaken (IsNewRow calendar created_at id) (λ row. row.trip_id ≡ id) rows
                  (λ row is_new. is_new.0) new in
              let kept : filter (is_leg_of id) legs ≡ rows =
                ap (λ t. filter (is_leg_of id) t) table
                ∙ filter-rows id rows db.legs mine (unlisted-legs db.trips id db.legs free owned) in
              let shown_legs : view.legs ≡ map (leg_view calendar) sorted =
                ap (λ t. map (leg_view calendar) (by_departure t)) kept in
              (
                view,
                subst (λ d. get_trip calendar d id ≡ some view) (sym same)
                    (ground (arith, eq_iff id id)),
                refl,
                refl,
                refl,
                refl,
                ap length shown_legs
                    ∙ (length-mapped-by (leg_view calendar) sorted
                        ∙ (by_departure-length rows ∙ count)),
                subst (All (IsFreshView calendar created_at)) (sym shown_legs) (
                    All-mapped-by (IsFreshView calendar created_at) (leg_view calendar) sorted (
                      by_departure-All
                        (λ row. IsFreshView calendar created_at (leg_view calendar row)) rows
                        (All-weaken (IsNewRow calendar created_at id)
                          (λ row. IsFreshView calendar created_at (leg_view calendar row)) rows
                          (λ row is_new. is_new.1) new))),
                All-weaken (λ leg. shown calendar created_at id leg rows ≡ true)
                    (λ leg. any (shows leg) view.legs ≡ true) itinerary.legs
                    (λ leg seen.
                      ap (any (shows leg)) shown_legs
                      ∙ (any-mapped-by (shows leg) (leg_view calendar) sorted
                          ∙ (by_departure-any (λ row. shows leg (leg_view calendar row)) rows
                              ∙ seen)))
                    found,
              )
        ]
