-- ===== src/Trips/Completed.antt =====
-- How the completion of a poll keeps the tables of the trips consistent.
use mathlib.Core.Path.{subst}
use flight_multi_agent.Base.{
  ℕ, ◌≡◌, ◌⊎◌, inl, inr, refl, sym, ap, ◌∙◌, String, Bool, true, false, List, [], ◌∷◌, map, any,
  All, arith, eq_iff, str_eq, Bool-cases, if◌then◌else◌, All-mapped, All-weaken, any-mapped,
}
use flight_multi_agent.Base.Text.{truthy}
use flight_multi_agent.Schedule.{Leg, is_active, ScheduledLeg, complete_row, complete_poll}
use flight_multi_agent.Trips.{
  Calendar, TripRow, TripStatus, trip_active, trip_review_required, trip_completed, AgentOutcome,
  Database, is_trip, is_leg_of,
}
use flight_multi_agent.Trips.Polls.{is_active_leg_of, close_trip, complete_transaction}
use flight_multi_agent.Trips.Consistent.{
  IsTimed, IsOwned, IsSettledBy, IsSettled, IsConsistent, IsSettled-same, any-is_leg_of,
  IsOwned-mapped,
}
use flight_multi_agent.Trips.Updates.{complete_row-trip, complete_row-IsTimed, complete_row-ended}

IsSettledBy-closed :
    (status : TripStatus) {going listed : Bool} (going_next listed_next : Bool)
    → IsSettledBy status going listed
    → listed ≡ true
    → (going ≡ true) ⊎ (going_next ≡ false)
    → IsSettledBy (if going_next then status else trip_completed) going_next listed_next
IsSettledBy-closed status false listed_next settled found falls = refl
IsSettledBy-closed trip_active true listed_next settled found falls = refl
IsSettledBy-closed trip_completed true listed_next settled found (inl going) = absurd (ground arith)
IsSettledBy-closed trip_completed true listed_next settled found (inr over) = over
IsSettledBy-closed trip_review_required true listed_next settled found falls = absurd (ground arith)

close_trip-trip :
    (trip_id : String) (at : ℕ) (legs : List Leg) (row : TripRow)
    → (close_trip trip_id at legs row).trip_id ≡ row.trip_id
unfolding close_trip
close_trip-trip trip_id at legs row = ground arith

module _ (held : ScheduledLeg) (status : String) (at : ℕ) where
  abbrev row_after : Leg → Leg
  row_after = complete_row held status at

  -- A trip whose legs are all completed has no active leg afterwards.
  ended-complete_poll :
      (trip_id : String) (legs : List Leg)
      → All IsTimed legs
      → any (is_active_leg_of trip_id) legs ≡ false
      → any (is_active_leg_of trip_id) (map row_after legs) ≡ false
  ended-complete_poll trip_id [] times ended = refl
  ended-complete_poll trip_id (leg ∷ legs) times ended =
      let rest = ended-complete_poll trip_id legs times.1 (ground arith) in
      let same = complete_row-trip held status at leg in
      let mine = ap (λ t. str_eq t trip_id) same in
      elim (Bool-cases (is_active leg.monitoring_status)) [
        | inl going ↦ ground arith
        | inr over ↦ let stays = complete_row-ended held status at leg times.0 over in ground arith
      ]

  -- The legs of the other trips are left.
  other-complete_poll :
      (trip_id : String) (legs : List Leg)
      → str_eq trip_id held.trip_id ≡ false
      → any (is_active_leg_of trip_id) (map row_after legs) ≡ any (is_active_leg_of trip_id) legs
  unfolding complete_row
  other-complete_poll trip_id legs other =
      any-mapped (is_active_leg_of trip_id) row_after legs (λ leg.
        elim (Bool-cases (str_eq leg.trip_id held.trip_id)) [
          | inl own ↦
              let named = (eq_iff leg.trip_id held.trip_id).0 own in
              ground (arith, eq_iff leg.trip_id trip_id, eq_iff trip_id held.trip_id)
          | inr apart ↦ ground arith
        ])

  close_trip-IsSettled :
      (legs : List Leg) (row : TripRow)
      → All IsTimed legs
      → any (is_leg_of held.trip_id) legs ≡ true
      → IsSettled legs row
      → IsSettled (map row_after legs) (close_trip held.trip_id at (map row_after legs) row)
  unfolding close_trip
  close_trip-IsSettled legs row times listed settled =
      let changed = map row_after legs in
      let same_legs = any-is_leg_of row_after (complete_row-trip held status at) row.trip_id legs in
      elim (Bool-cases (str_eq row.trip_id held.trip_id)) [
        | inr other ↦ rw other (
            IsSettled-same legs changed row (other-complete_poll row.trip_id legs other) same_legs
              settled)
        | inl own ↦
            let named = (eq_iff row.trip_id held.trip_id).0 own in
            let ended = ended-complete_poll row.trip_id legs times in
            let falls : (any (is_active_leg_of row.trip_id) legs ≡ true)
                ⊎ (any (is_active_leg_of row.trip_id) changed ≡ false) =
              elim (Bool-cases (any (is_active_leg_of row.trip_id) legs)) [
                | inl going ↦ inl going
                | inr over ↦ inr (ended over)
              ] in
            let mine = subst (λ t. any (is_leg_of t) legs ≡ true) (sym named) listed in
            rw own (
              subst
                (λ t.
                  IsSettledBy
                    (if any (is_active_leg_of t) changed then row.status else trip_completed)
                    (any (is_active_leg_of row.trip_id) changed)
                    (any (is_leg_of row.trip_id) changed))
                named
                (IsSettledBy-closed row.status (any (is_active_leg_of row.trip_id) changed)
                  (any (is_leg_of row.trip_id) changed) settled mine falls))
      ]

module _ (db : Database) (consistent : IsConsistent db) where
  -- The leg of the poll is of a trip with a leg.
  pub complete-IsConsistent :
      (calendar : Calendar) (held : ScheduledLeg) (outcome : AgentOutcome) (at : ℕ)
      → any (is_leg_of held.trip_id) db.legs ≡ true
      → IsConsistent (complete_transaction calendar held outcome at db)
  unfolding complete_transaction complete_poll
  complete-IsConsistent calendar held outcome at listed =
      let (times, owned, settled) = consistent in
      let status = if truthy outcome.status then outcome.status else "unknown" in
      let row_next = complete_row held status at in
      let changed = map row_next db.legs in
      let close = close_trip held.trip_id at changed in
      let same_names : (trip_id : String)
          → any (is_trip trip_id) (map close db.trips) ≡ any (is_trip trip_id) db.trips =
        λ trip_id.
          any-mapped (is_trip trip_id) close db.trips
            (λ row. ap (λ t. str_eq t trip_id) (close_trip-trip held.trip_id at changed row)) in
      (
        All-mapped IsTimed IsTimed row_next db.legs (complete_row-IsTimed held status at) times,
        All-weaken (IsOwned db.trips) (IsOwned (map close db.trips)) changed
            (λ leg own. same_names leg.trip_id ∙ own)
            (IsOwned-mapped row_next (complete_row-trip held status at) db.trips db.legs owned),
        All-mapped (IsSettled db.legs) (IsSettled changed) close db.trips
            (λ row settled. close_trip-IsSettled held status at db.legs row times listed settled)
            settled,
      )
