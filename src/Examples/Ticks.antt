-- ===== src/Examples/Ticks.antt =====
-- A tick of the scheduler for a trip with two legs that are due.
use flight_multi_agent.Base.{◌≡◌, refl, true, false, none, some, List, [], length, arith}
use flight_multi_agent.Base.Json.{no_fields}
use flight_multi_agent.Base.Result.{Result, ok, raise, database_error}
use flight_multi_agent.Clock.{parse_timestamp}
use flight_multi_agent.Schedule.{ScheduledLeg, claim_due_legs, chosen, is_due, scheduled_leg}
use flight_multi_agent.Trips.Writes.{
  new_leg, insert_leg, insert_legs, save_notification_preference, insert_parsed, save_parsed_trip,
}
use flight_multi_agent.Monitoring.{PollRequest}
use flight_multi_agent.Trips.{AgentOutcome, Database}
use flight_multi_agent.Trips.Polls.{claim_transaction}
use flight_multi_agent.Orchestrator.PollResults.{PollResult, failed_result, poll_result}
use flight_multi_agent.Orchestrator.Claim.{claim_legs, is_scheduled}
use flight_multi_agent.Orchestrator.Tick.{
  TickOutside, TickRequest, TickOutcome, request_of, polled, handle_leg, claimed_legs, tick_at,
}
use flight_multi_agent.Orchestrator.Reported.{IsOf, IsSpent, handle_leg-IsReported}
use flight_multi_agent.Orchestrator.Ticks.{IsTick, tick_at-reports}
use flight_multi_agent.Examples.Trips.{calendar, saved_db}

abbrev held_leg : ScheduledLeg
held_leg = record {
  trip_id = "trip-a";
  leg_id = "leg-1";
  flight_iata = "BA100";
  flight_date = "2026-08-25";
  scheduled_departure_at = 500;
  scheduled_arrival_at = 900;
  due_at = 7;
  replay_key = "scheduled:trip-a:leg-1";
  trace_headers = [];
}

abbrev unchanged : PollRequest → AgentOutcome
unchanged request = record {
  status = "unchanged";
  request = request;
  observation = none;
  candidate = none;
  decision = none;
  confirmed_event = none;
  notification = none;
  search_record = none;
  error_code = none;
  orchestration = no_fields;
}

abbrev outside : TickOutside
outside = record {
  locked = λ leg. false;
  claims = true;
  poll = λ request. some (unchanged request);
  meanwhile = λ leg db. db;
  completes = λ leg. true;
  fails = λ leg. true;
  repr = λ value. "";
}

abbrev result_of : Result PollResult → PollResult
result_of (ok result) = result
result_of (raise e) = failed_result outside.repr calendar held_leg

abbrev result : PollResult
result = result_of (handle_leg calendar outside 10 held_leg saved_db).0

abbrev left : Database
left = (handle_leg calendar outside 10 held_leg saved_db).1

handles : handle_leg calendar outside 10 held_leg saved_db ≡ (ok result, left)
unfolding handle_leg polled request_of poll_result
handles = refl

handle_leg-IsReported_example : IsOf calendar held_leg result × IsSpent held_leg left
handle_leg-IsReported_example =
    handle_leg-IsReported calendar outside 10 held_leg saved_db left result (omega arith) handles

abbrev request : TickRequest
request = record { now = "10"; maximum_legs = 20; trip_id = none }

-- Both legs of the trip are due from its activation on.
abbrev legs_of : Result (List ScheduledLeg) → List ScheduledLeg
legs_of (ok legs) = legs
legs_of (raise e) = []

abbrev claimed : List ScheduledLeg
claimed = legs_of (claimed_legs calendar outside 120 10 request saved_db).0

claims : (claimed_legs calendar outside 120 10 request saved_db).0 ≡ ok claimed
unfolding claim_legs is_scheduled claim_transaction claim_due_legs chosen is_due scheduled_leg
    save_parsed_trip insert_parsed insert_legs insert_leg new_leg save_notification_preference
    parse_timestamp calendar
claims = refl

claims_two : length claimed ≡ 2
unfolding claim_legs is_scheduled claim_transaction claim_due_legs chosen is_due scheduled_leg
    save_parsed_trip insert_parsed insert_legs insert_leg new_leg save_notification_preference
    parse_timestamp calendar
claims_two = refl

tick_at-reports_example :
    (outcome : TickOutcome) × ((tick_at calendar outside 120 10 request saved_db).0 ≡ ok outcome)
    × IsTick calendar claimed 20 outcome
tick_at-reports_example =
    tick_at-reports calendar outside 120 10 request saved_db claimed claims (λ leg. refl)

-- Where the database refuses the claim, the tick raises and polls nothing.
refuses :
    tick_at calendar (record outside { claims = false }) 120 10 request saved_db
    ≡ (raise database_error, saved_db)
unfolding tick_at claim_legs
refuses = refl
