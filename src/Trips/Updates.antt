-- ===== src/Trips/Updates.antt =====
-- How claims and failures of polls keep the tables of the trips consistent.
use flight_multi_agent.Base.{
  ℕ, ◌+◌, ◌*◌, ◌≡◌, ◌⊎◌, inl, inr, refl, String, Bool, false, Option, List, any, arith, Bool-cases,
  Option-cases, if◌then◌else◌,
}
use flight_multi_agent.Schedule.{
  Leg, active, completed, MonitoringStatus, is_active, ScheduledLeg, is_claimed, complete_row,
  fail_row, fail_poll, claim_due_legs, chosen, same_leg, leased, second,
}
use flight_multi_agent.Schedule.Guard.{next_poll_time-cases}
use flight_multi_agent.Trips.{Calendar, Database}
use flight_multi_agent.Trips.Polls.{fail_transaction, claim_transaction}
use flight_multi_agent.Trips.Consistent.{IsTimed, IsConsistent, IsConsistent-mapped}

MonitoringStatus-cases : (s : MonitoringStatus) → (s ≡ active) ⊎ (s ≡ completed)
MonitoringStatus-cases active = inl refl
MonitoringStatus-cases completed = inr refl

-- A claim
module _ (due : List Leg) (until : ℕ) where
  abbrev lease : Leg → Leg
  lease leg = if any (same_leg leg) due then leased until leg else leg

  lease-trip : (leg : Leg) → (lease leg).trip_id ≡ leg.trip_id
  lease-trip leg = ground arith

  lease-status : (leg : Leg) → (lease leg).monitoring_status ≡ leg.monitoring_status
  lease-status leg = ground arith

  lease-IsTimed : (leg : Leg) → IsTimed leg → IsTimed (lease leg)
  lease-IsTimed leg timed = ground arith

-- The update of a leg whose poll failed
module _ (held : ScheduledLeg) (at : ℕ) where
  fail_row-trip : (leg : Leg) → (fail_row held at leg).trip_id ≡ leg.trip_id
  unfolding fail_row
  fail_row-trip leg = ground arith

  fail_row-status : (leg : Leg) → (fail_row held at leg).monitoring_status ≡ leg.monitoring_status
  unfolding fail_row
  fail_row-status leg = ground arith

  fail_row-IsTimed : (leg : Leg) → IsTimed leg → IsTimed (fail_row held at leg)
  unfolding fail_row
  fail_row-IsTimed leg timed = elim (MonitoringStatus-cases leg.monitoring_status) [
    | inl going ↦ elim (Option-cases leg.next_poll_at) [
      | inl missing ↦ absurd (ground arith)
      | inr (next, known) ↦ ground arith
    ]
    | inr ended ↦ elim (Option-cases leg.next_poll_at) [
      | inl missing ↦ ground arith
      | inr (next, known) ↦ absurd (ground arith)
    ]
  ]

module _ (held : ScheduledLeg) (status : String) (at : ℕ) where
  pub complete_row-trip : (leg : Leg) → (complete_row held status at leg).trip_id ≡ leg.trip_id
  unfolding complete_row
  complete_row-trip leg = ground arith

  pub complete_row-IsTimed : (leg : Leg) → IsTimed leg → IsTimed (complete_row held status at leg)
  unfolding complete_row
  complete_row-IsTimed leg timed =
      let cases = next_poll_time-cases held.scheduled_departure_at held.scheduled_arrival_at at in
      elim (Bool-cases (is_claimed held leg)) [
        | inr unclaimed ↦ ground arith
        | inl claimed ↦ elim cases [
          | inl (over, ended) ↦ ground arith
          | inr (going, (next, continued, low, high)) ↦ ground arith
        ]
      ]

  -- A leg that is completed stays so.
  pub complete_row-ended :
      (leg : Leg)
      → IsTimed leg
      → is_active leg.monitoring_status ≡ false
      → is_active (complete_row held status at leg).monitoring_status ≡ false
  unfolding complete_row
  complete_row-ended leg timed ended = elim (MonitoringStatus-cases leg.monitoring_status) [
    | inl going ↦ absurd (ground arith)
    | inr closed ↦ elim (Option-cases leg.next_poll_at) [
      | inl missing ↦ ground arith
      | inr (next, known) ↦ absurd (ground arith)
    ]
  ]

module _ (db : Database) (consistent : IsConsistent db) where
  pub claim-IsConsistent :
      (locked : Leg → Bool) (now maximum seconds : ℕ) (trip : Option String)
      → IsConsistent (claim_transaction locked now maximum seconds trip db).1
  unfolding claim_transaction claim_due_legs
  claim-IsConsistent locked now maximum seconds trip =
      let due = chosen locked now maximum seconds trip db.legs in
      let until = now + seconds * second in
      IsConsistent-mapped (lease due until) (lease-trip due until) db (lease-status due until)
        (lease-IsTimed due until) consistent

  pub fail-IsConsistent :
      (calendar : Calendar) (held : ScheduledLeg) (code : String) (at : ℕ)
      → IsConsistent (fail_transaction calendar held code at db)
  unfolding fail_transaction fail_poll
  fail-IsConsistent calendar held code at =
      IsConsistent-mapped (fail_row held at) (fail_row-trip held at) db (fail_row-status held at)
        (fail_row-IsTimed held at) consistent
