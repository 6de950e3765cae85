-- ===== src/Orchestrator/Tick.antt =====
-- flight_agent/trip_orchestrator.py, `TripOrchestrator.tick`: the polls of the legs that are due.
--
-- The texts of the traces are left out. The monitoring agent, the other transactions and the
-- failures of the database are in `TickOutside`.
use Prim.Native.String.{count}
use flight_multi_agent.Base.{
  ℕ, suc, ◌-◌, String, Bool, true, false, Option, none, some, List, [], ◌∷◌, if◌then◌else◌, leb,
  length,
}
use flight_multi_agent.Base.Json.{Json}
use flight_multi_agent.Base.Result.{Result, ok, raise, runtime_error}
use flight_multi_agent.Clock.{parse_timestamp}
use flight_multi_agent.Schedule.{Leg, ScheduledLeg}
use flight_multi_agent.Monitoring.{PollRequest}
use flight_multi_agent.Trips.{Calendar, AgentOutcome, Database, second_text}
use flight_multi_agent.Trips.Polls.{complete_transaction, fail_transaction}
use flight_multi_agent.Orchestrator.Claim.{claim_legs}
use flight_multi_agent.Orchestrator.PollResults.{
  PollResult, poll_completed, poll_failed, poll_result, failed_result,
}

-- `SchedulerTickRequest`
pub record TickRequest : Type 0 where
  pub now : String
  pub maximum_legs : ℕ
  pub trip_id : Option String

-- `SchedulerTickOutcome`
pub record TickOutcome : Type 0 where
  pub requested_at : String
  pub claimed_count : ℕ
  pub completed_count : ℕ
  pub failed_count : ℕ
  pub results : List PollResult

-- `claims` tells whether the transaction of the claim commits; `poll` is `none` where the agent
-- raises; `completes` and `fails` tell whether the transactions
-- that report a leg commit; `repr` is Python's text of a list or a dictionary.
pub record TickOutside : Type 0 where
  pub locked : Leg → Bool
  pub claims : Bool
  pub poll : PollRequest → Option AgentOutcome
  pub meanwhile : ScheduledLeg → Database → Database
  pub completes : ScheduledLeg → Bool
  pub fails : ScheduledLeg → Bool
  pub repr : Json → String

-- The request for the agent, whose replay key has at most 200 characters.
unfoldable pub request_of : ScheduledLeg → Option PollRequest
request_of leg =
    if leb (count leg.replay_key) 200
    then some (record {
      trip_id = leg.trip_id;
      leg_id = leg.leg_id;
      flight_iata = leg.flight_iata;
      flight_date = leg.flight_date;
      replay_key = some leg.replay_key;
    })
    else none

module _ (calendar : Calendar) (outside : TickOutside) (now : ℕ) where
  -- The poll of the agent
  unfoldable pub polled : ScheduledLeg → Option AgentOutcome
  polled leg = elim (request_of leg) [ none ↦ none | some request ↦ outside.poll request ]

  -- The branch of the exceptions
  unfoldable pub report_failure : ScheduledLeg → Database → Result PollResult × Database
  report_failure leg db =
      if outside.fails leg
      then (
        ok (failed_result outside.repr calendar leg),
        fail_transaction calendar leg "MONITORING_AGENT_FAILED" now db,
      )
      else (raise runtime_error, db)

  unfoldable pub handle_leg : ScheduledLeg → Database → Result PollResult × Database
  handle_leg leg before =
      let db = outside.meanwhile leg before in
      elim (polled leg) [
        | none ↦ report_failure leg db
        | some outcome ↦
            let done = complete_transaction calendar leg outcome now db in
            if outside.completes leg
            then elim (poll_result outside.repr calendar leg outcome) [
              | ok result ↦ (ok result, done)
              | raise e ↦ report_failure leg done
            ]
            else report_failure leg db
      ]

  unfoldable pub handle_legs : List ScheduledLeg → Database → Result (List PollResult) × Database
  handle_legs [] db = (ok [], db)
  handle_legs (leg ∷ legs) db =
      let (first, middle) = handle_leg leg db in
      let (rest, last) = handle_legs legs middle in
      elim first [
        | raise e ↦ (raise e, middle)
        | ok result ↦ elim rest [
          | raise e ↦ (raise e, last)
          | ok results ↦ (ok (result ∷ results), last)
        ]
      ]

abbrev pub is_completed : PollResult → Bool
is_completed result = elim result.status [ poll_completed ↦ true | poll_failed ↦ false ]

unfoldable pub count_completed : List PollResult → ℕ
count_completed [] = 0
count_completed (result ∷ results) =
    let rest = count_completed results in if is_completed result then suc rest else rest

module _ (calendar : Calendar) (outside : TickOutside) (lease_seconds : ℕ) where
  -- The claim is outside of the handlers of exceptions.
  abbrev pub claimed_legs : ℕ → TickRequest → Database → Result (List ScheduledLeg) × Database
  claimed_legs now request db =
      claim_legs outside.locked outside.claims now request.maximum_legs lease_seconds
        request.trip_id db

  unfoldable pub tick_at : ℕ → TickRequest → Database → Result TickOutcome × Database
  tick_at now request db =
      let (claim, claimed) = claimed_legs now request db in
      elim claim [
        | raise e ↦ (raise e, claimed)
        | ok due ↦
            let (handled, last) = handle_legs calendar outside now due claimed in
            elim handled [
              | raise e ↦ (raise e, last)
              | ok results ↦ (
                ok (record {
                  requested_at = second_text calendar now;
                  claimed_count = length due;
                  completed_count = count_completed results;
                  failed_count = length results - count_completed results;
                  results = results;
                }),
                last,
              )
            ]
      ]

  unfoldable pub tick : TickRequest → Database → Result TickOutcome × Database
  tick request db = elim (parse_timestamp calendar.iso request.now) [
    | raise e ↦ (raise e, db)
    | ok now ↦ tick_at now request db
  ]
