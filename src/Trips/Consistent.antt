-- ===== src/Trips/Consistent.antt =====
-- What holds of the tables of the trips at any time, and how it is kept by updates of legs.
use mathlib.Core.Path.{subst}
use flight_multi_agent.Base.{
  ℕ, ◌≡◌, inl, inr, refl, String, Bool, true, false, Option, none, some, List, [], ◌∷◌, map, any,
  All, arith, eq_iff, str_eq, Bool-cases, ap, sym, ◌∙◌, All-mapped, All-weaken, any-mapped,
}
use flight_multi_agent.Schedule.{Leg, active, completed, MonitoringStatus}
use flight_multi_agent.Trips.{
  TripRow, TripStatus, trip_active, trip_review_required, trip_completed, Database, is_trip,
  is_leg_of,
}
use flight_multi_agent.Trips.Polls.{is_active_leg_of}

-- An active leg has a time of its next poll, and a completed one has none.
abbrev pub is_timed : MonitoringStatus → Option ℕ → Bool
is_timed active (some at) = true
is_timed completed none = true
is_timed _ _ = false

abbrev pub IsTimed : Leg → Type 0
IsTimed leg = is_timed leg.monitoring_status leg.next_poll_at ≡ true

abbrev pub IsOwned : List TripRow → Leg → Type 0
IsOwned trips leg = any (is_trip leg.trip_id) trips ≡ true

-- By whether the trip has an active leg, and whether it has a leg: an active trip has an active
-- leg, a completed one has none, and one under review has no leg.
abbrev pub IsSettledBy : TripStatus → Bool → Bool → Type 0
IsSettledBy trip_active going listed = going ≡ true
IsSettledBy trip_completed going listed = going ≡ false
IsSettledBy trip_review_required going listed = listed ≡ false

abbrev pub IsSettled : List Leg → TripRow → Type 0
IsSettled legs row =
    IsSettledBy row.status (any (is_active_leg_of row.trip_id) legs)
      (any (is_leg_of row.trip_id) legs)

abbrev pub IsConsistent : Database → Type 0
IsConsistent db =
    All IsTimed db.legs × All (IsOwned db.trips) db.legs × All (IsSettled db.legs) db.trips

IsSettledBy-same :
    (status : TripStatus) {going listed going_next listed_next : Bool}
    → going_next ≡ going
    → listed_next ≡ listed
    → IsSettledBy status going listed
    → IsSettledBy status going_next listed_next
IsSettledBy-same trip_active same_going same_listed holds = same_going ∙ holds
IsSettledBy-same trip_completed same_going same_listed holds = same_going ∙ holds
IsSettledBy-same trip_review_required same_going same_listed holds = same_listed ∙ holds

-- The two tests of a trip's legs decide whether its row is settled.
pub IsSettled-same :
    (legs changed : List Leg) (row : TripRow)
    → any (is_active_leg_of row.trip_id) changed ≡ any (is_active_leg_of row.trip_id) legs
    → any (is_leg_of row.trip_id) changed ≡ any (is_leg_of row.trip_id) legs
    → IsSettled legs row
    → IsSettled changed row
IsSettled-same legs changed row = IsSettledBy-same row.status

-- An update of the legs that keeps their trips, their states and that they are timed keeps the
-- tables consistent.
module _ (f : Leg → Leg) (same_trip : (leg : Leg) → (f leg).trip_id ≡ leg.trip_id) where
  pub any-is_leg_of :
      (trip_id : String) (legs : List Leg)
      → any (is_leg_of trip_id) (map f legs) ≡ any (is_leg_of trip_id) legs
  any-is_leg_of trip_id legs =
      any-mapped (is_leg_of trip_id) f legs (λ leg. ap (λ t. str_eq t trip_id) (same_trip leg))

  pub IsOwned-mapped :
      (trips : List TripRow) (legs : List Leg)
      → All (IsOwned trips) legs
      → All (IsOwned trips) (map f legs)
  IsOwned-mapped trips legs owned =
      All-mapped (IsOwned trips) (IsOwned trips) f legs
        (λ leg own. subst (λ t. any (is_trip t) trips ≡ true) (sym (same_trip leg)) own) owned

  pub IsConsistent-mapped :
      (db : Database)
      → ((leg : Leg) → (f leg).monitoring_status ≡ leg.monitoring_status)
      → ((leg : Leg) → IsTimed leg → IsTimed (f leg))
      → IsConsistent db
      → IsConsistent (record db { legs = map f db.legs })
  IsConsistent-mapped db same_status timed (times, owned, settled) = (
    All-mapped IsTimed IsTimed f db.legs timed times,
    IsOwned-mapped db.trips db.legs owned,
    All-weaken (IsSettled db.legs) (IsSettled (map f db.legs)) db.trips
        (λ row.
          IsSettled-same db.legs (map f db.legs) row
            (any-mapped (is_active_leg_of row.trip_id) f db.legs
              (λ leg. let t = same_trip leg in let s = same_status leg in cc))
            (any-is_leg_of row.trip_id db.legs))
        settled,
  )

-- A trip without a row has no leg.
pub unlisted-legs :
    (trips : List TripRow) (trip_id : String) (legs : List Leg)
    → any (is_trip trip_id) trips ≡ false
    → All (IsOwned trips) legs
    → any (is_leg_of trip_id) legs ≡ false
unlisted-legs trips trip_id [] unlisted owned = refl
unlisted-legs trips trip_id (leg ∷ legs) unlisted owned =
    let rest = unlisted-legs trips trip_id legs unlisted owned.1 in
    elim (Bool-cases (str_eq leg.trip_id trip_id)) [
      | inr other ↦ ground arith
      | inl own ↦
          let same = (eq_iff leg.trip_id trip_id).0 own in
          let found = subst (λ t. any (is_trip t) trips ≡ true) same owned.0 in
          absurd (ground arith)
    ]
