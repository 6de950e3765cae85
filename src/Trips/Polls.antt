-- ===== src/Trips/Polls.antt =====
-- flight_agent/trip_store.py: the transactions of a poll, on all tables, where they are committed.
-- The failures are their callers' (Orchestrator.Claim and Orchestrator.Tick).
use flight_multi_agent.Base.{
  ℕ, String, Bool, ◌&&◌, Option, List, ◌∷◌, map, any, str_eq, if◌then◌else◌,
}
use flight_multi_agent.Base.Text.{truthy}
use flight_multi_agent.Base.Assoc.{Dict}
use flight_multi_agent.Schedule.{
  Leg, ScheduledLeg, is_active, claim_due_legs, scheduled_leg, complete_poll, fail_poll,
  put_trace_context,
}
use flight_multi_agent.Trips.{
  Calendar, TripRow, trip_completed, AgentOutcome, RunRow, run_completed, run_failed, Database,
  is_trip, is_leg_of, poll_key,
}

-- A second run with the poll's key is left out.
unfoldable pub insert_run : RunRow → List RunRow → List RunRow
insert_run run runs =
    if any (λ other. str_eq other.poll_key run.poll_key) runs then runs else run ∷ runs

abbrev pub is_active_leg_of : String → Leg → Bool
is_active_leg_of trip_id leg = is_leg_of trip_id leg && is_active leg.monitoring_status

-- The two updates of `trips`
unfoldable pub close_trip : String → ℕ → List Leg → TripRow → TripRow
close_trip trip_id completed_at legs row =
    let status = if any (is_active_leg_of trip_id) legs then row.status else trip_completed in
    if is_trip trip_id row then record row { status = status; updated_at = completed_at } else row

module _ (calendar : Calendar) where
  unfoldable pub complete_transaction : ScheduledLeg → AgentOutcome → ℕ → Database → Database
  complete_transaction held outcome completed_at db =
      let run : RunRow = record {
        poll_key = poll_key calendar held;
        trip_id = held.trip_id;
        leg_id = held.leg_id;
        result = run_completed outcome;
        recorded_at = completed_at;
      } in
      let status = if truthy outcome.status then outcome.status else "unknown" in
      let legs = complete_poll held status completed_at db.legs in
      record db {
        runs = insert_run run db.runs;
        legs = legs;
        trips = map (close_trip held.trip_id completed_at legs) db.trips;
      }

  unfoldable pub fail_transaction : ScheduledLeg → String → ℕ → Database → Database
  fail_transaction held error_code failed_at db =
      let run : RunRow = record {
        poll_key = poll_key calendar held;
        trip_id = held.trip_id;
        leg_id = held.leg_id;
        result = run_failed error_code;
        recorded_at = failed_at;
      } in
      record db { runs = insert_run run db.runs; legs = fail_poll held failed_at db.legs }

-- The legs that are handed to the caller, and the database with their leases.
unfoldable pub claim_transaction :
    (Leg → Bool) → ℕ → ℕ → ℕ → Option String → Database → List ScheduledLeg × Database
claim_transaction locked now maximum seconds trip db =
    let (claimed, legs) = claim_due_legs locked now maximum seconds trip db.legs in
    (map (scheduled_leg db.contexts) claimed, record db { legs = legs })

unfoldable pub trace_transaction : String → Dict String → Database → Database
trace_transaction trip_id headers db = record db {
  contexts = put_trace_context trip_id headers db.contexts;
}
