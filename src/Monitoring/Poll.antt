-- ===== src/Monitoring/Poll.antt =====
-- flight_agent/monitoring_flow.py, `evaluate_delta` and `_persist`: what a poll does with its
-- evidence. The outcome is `raise` where the flow raises, with the state that it leaves.
use flight_multi_agent.Base.{
  String, Bool, true, false, Option, none, some, List, [], ◌∷◌, ◌++◌, leb, if◌then◌else◌,
}
use flight_multi_agent.Base.Table.{Table}
use flight_multi_agent.Base.Result.{Result, ok, raise, ◌>>=◌}
use flight_multi_agent.Clock.{IsoFormat, parse_timestamp}
use flight_multi_agent.Evidence.{Candidate, Decision, is_search}
use flight_multi_agent.Events.{disruption_candidate}
use flight_multi_agent.Observation.{Observation, Floats}
use flight_multi_agent.MonitoringStore.{
  Item, WeatherReport, get_last_observation, put_last_observation, get_last_weather,
  put_last_weather, get_decision, get_confirmed_event, get_notification, get_search,
}
use flight_multi_agent.MonitoringStore.Outbox.{put_candidate_with_outbox, delete_outbox}
use flight_multi_agent.Monitoring.{
  PollRequest, Fetched, unavailable, fetched, Outside, World, PollStatus, baseline_stored,
  unchanged, stale_observation, candidate_evaluated, evaluation_pending, poll_failed, PollOutcome,
  fetch_evidence,
}
use flight_multi_agent.Monitoring.Judge.{
  PollEvidence, flight_of, effective_flight, fields_of, candidate_of,
}

module _ {F : Type 0} where
  abbrev pub keep_flight : PollRequest → Option (Observation F) → Table (Item F) → Table (Item F)
  keep_flight request none table = table
  keep_flight request (some o) table = put_last_observation table request.trip_id request.leg_id o

  abbrev pub keep_weather : PollRequest → Option (WeatherReport F) → Table (Item F) → Table (Item F)
  keep_weather request none table = table
  keep_weather request (some w) table = put_last_weather table request.trip_id request.leg_id w

  -- `_persist`
  unfoldable pub persist :
      PollRequest
      → Option (Observation F)
      → Option (WeatherReport F)
      → Table (Item F)
      → Table (Item F)
  persist request flight weather table =
      keep_weather request weather (keep_flight request flight table)

  -- The readings until the one that finds a value, and the store at the last of them.
  unfoldable pub wait_for :
      {A : Type 0}
      → (Table (Item F) → Option A)
      → List (Table (Item F) → Table (Item F))
      → Table (Item F)
      → Option A × Table (Item F)
  wait_for read [] table = (none, table)
  wait_for read (other ∷ others) table =
      let later = wait_for read others (other table) in
      elim (read table) [ none ↦ later | some found ↦ (some found, table) ]

  abbrev pub outcome_of :
      PollStatus → Option (Observation F) → Option (WeatherReport F) → Option String → PollOutcome F
  outcome_of status observation weather error_code = record {
    status = status;
    observation = observation;
    weather = weather;
    candidate = none;
    decision = none;
    confirmed_event = none;
    notification = none;
    search_record = none;
    error_code = error_code;
    candidate_events_published = 0;
  }

  -- The flight that is kept for the next poll: a stale one is not.
  abbrev pub fresh_flight : PollEvidence F → Option (Observation F)
  fresh_flight e = if e.stale then none else some e.flight

  module _ (iso : IsoFormat) where
    -- Whether a flight's source is no newer than that of another.
    unfoldable pub is_stale : Observation F → Observation F → Result Bool
    is_stale flight previous = do
      at ← parse_timestamp iso flight.source_event_time
      before ← parse_timestamp iso previous.source_event_time
      ok (leb at before)

  module _ (request : PollRequest) where
    abbrev pub with_stale :
        Observation F → Observation F → Option (WeatherReport F) → World F → Bool → PollEvidence F
    with_stale previous flight weather w stale = record {
      previous_flight = previous;
      previous_weather = get_last_weather w.store request.trip_id request.leg_id;
      flight = flight;
      current_weather = weather;
      stale = stale;
    }

  abbrev pub quiet_outcome : PollEvidence F → PollOutcome F
  quiet_outcome e =
      outcome_of (if e.stale then stale_observation else unchanged) (some (effective_flight e))
        e.current_weather none

  -- The block of the publication: whether it returns, and what it has done.
  unfoldable pub emit : Outside F → Candidate F → World F → Bool × World F
  emit outside c w =
      let written : World F = record w {
        store = put_candidate_with_outbox w.store outside.active_headers c;
      } in
      let sent : World F = record written { published = w.published ++ c ∷ [] } in
      let cleared : World F = record sent {
        store = delete_outbox written.store disruption_candidate c.candidate_id;
      } in
      if outside.writes
      then if outside.publishes
        then if outside.deletes then (true, cleared) else (false, sent)
        else (false, written)
      else (false, w)

  module _ (outside : Outside F) (request : PollRequest) where
    -- The wait for the results of an evaluation, which reports what it finds.
    unfoldable pub after_decision :
        String
        → Option (Decision F) × Table (Item F)
        → PollOutcome F
        → PollOutcome F × Table (Item F)
    unfolding wait_for
    after_decision candidate_id (none, table) outcome = (outcome, table)
    after_decision candidate_id (some d, table) outcome =
        let decided : PollOutcome F = record outcome {
          status = candidate_evaluated;
          decision = some d;
          confirmed_event = get_confirmed_event table candidate_id;
        } in
        let notified =
          wait_for (λ store. get_notification store d.decision_id) outside.until_notified table in
        let searched =
          wait_for (λ store. get_search store d.decision_id) outside.until_searched notified.1 in
        elim (get_confirmed_event table candidate_id) [
          | none ↦ (decided, table)
          | some e ↦
              if is_search d.verdict
              then (
                record decided { notification = notified.0; search_record = searched.0 },
                searched.1,
              )
              else (record decided { notification = notified.0 }, notified.1)
        ]

    -- A candidate is published; only then is the evidence kept.
    unfoldable pub report : PollEvidence F → Candidate F → World F → PollOutcome F × World F
    unfolding after_decision
    report e c w =
        let emitted = emit outside c w in
        let kept = persist request (fresh_flight e) e.current_weather emitted.1.store in
        let waited =
          after_decision c.candidate_id
            (wait_for (λ store. get_decision store c.candidate_id) outside.waiting kept)
            (record (outcome_of evaluation_pending (some (effective_flight e)) e.current_weather
              none) { candidate = some c; candidate_events_published = 1 }) in
        if emitted.0 then (waited.0, record emitted.1 { store = waited.1 }) else (
          record (outcome_of poll_failed (some (effective_flight e)) e.current_weather
              (some "CANDIDATE_EVENT_PUBLISH_FAILED")) { candidate = some c },
          emitted.1,
        )

    module _ (iso : IsoFormat) (floats : Floats F) where
      -- The evidence of a leg that was observed before.
      unfoldable pub compare_evidence : PollEvidence F → World F → Result (PollOutcome F) × World F
      compare_evidence e w = elim (fields_of e) [
        | [] ↦ (
          ok (quiet_outcome e),
          record w { store = persist request (fresh_flight e) e.current_weather w.store },
        )
        | _ ↦ elim (candidate_of iso floats request e) [
          | raise error ↦ (raise error, w)
          | ok c ↦ let reported = report e c w in (ok reported.0, reported.1)
        ]
      ]

      unfoldable pub evaluate_delta : Fetched F → World F → Result (PollOutcome F) × World F
      evaluate_delta unavailable w =
          (ok (outcome_of poll_failed none none (some "FLIGHT_STATUS_MCP_FAILED")), w)
      evaluate_delta (fetched provided weather) w =
          let flight = flight_of request provided in
          elim (get_last_observation w.store request.trip_id request.leg_id) [
            | none ↦ (
              ok (outcome_of baseline_stored (some flight) weather none),
              record w { store = persist request (some flight) weather w.store },
            )
            | some previous ↦ elim (is_stale iso flight previous) [
              | raise error ↦ (raise error, w)
              | ok stale ↦ compare_evidence (with_stale request previous flight weather w stale) w
            ]
          ]

      unfoldable pub poll : World F → Result (PollOutcome F) × World F
      poll w = evaluate_delta (fetch_evidence outside request) w
