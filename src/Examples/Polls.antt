-- ===== src/Examples/Polls.antt =====
-- Three polls of a leg: its first, one that finds a delay, and one whose publication fails.
use flight_multi_agent.Base.{ℕ, ◌≡◌, ◌⊎◌, refl, true, false, none, some, [], ◌∷◌, ◌++◌}
use flight_multi_agent.Base.Table.{get_item, put_item, delete_item}
use flight_multi_agent.Base.Text.{remove_prefix}
use flight_multi_agent.Base.Result.{Result, ok}
use flight_multi_agent.Clock.{parse_timestamp}
use flight_multi_agent.Evidence.{Candidate}
use flight_multi_agent.Observation.{
  Observation, changed_fields, classify_candidate, operational_delay, movement_delay,
  minutes_between, effective_time, candidate_score, same_at,
}
use flight_multi_agent.Events.{candidate_outbox, outbox_record}
use flight_multi_agent.MonitoringStore.{
  WeatherReport, get_last_observation, put_last_observation, get_last_weather, put_last_weather,
  get_decision,
}
use flight_multi_agent.MonitoringStore.Outbox.{
  put_candidate, put_candidate_with_outbox, delete_outbox,
}
use flight_multi_agent.Monitoring.{
  PollRequest, PollOutcome, evaluation_pending, fetched, Outside, World, event_id, weather_fields,
}
use flight_multi_agent.Monitoring.Judge.{
  PollEvidence, flight_of, flight_fields, fields_of, effective_flight, weather_only,
  is_corroborated, without_copies, candidate_of, confidence_of,
}
use flight_multi_agent.Monitoring.Poll.{
  emit, report, compare_evidence, is_stale, evaluate_delta, persist, wait_for, after_decision,
  outcome_of,
}
use flight_multi_agent.Monitoring.Persisted.{
  held_flight, held_weather, IsLater, evaluate_delta-held,
}
use flight_multi_agent.Monitoring.Published.{
  IsCarriedChange, evaluate_delta-carries, evaluate_delta-failed,
}
use flight_multi_agent.Monitoring.Retried.{evaluate_delta-retried}
use flight_multi_agent.Examples.Sample.{numerals, scaled, seen}

abbrev request : PollRequest
request = record {
  trip_id = "trip-a";
  leg_id = "leg-1";
  flight_iata = "BA100";
  flight_date = "2026-01-01";
  replay_key = none;
}

abbrev service : Outside ℕ
service = record {
  flight_status = λ flight date key. none;
  airport_weather = λ airport at key. none;
  active_headers = [];
  writes = true;
  publishes = true;
  deletes = true;
  waiting = [];
  until_notified = [];
  until_searched = [];
}

-- The event bus does not answer.
abbrev cut_off : Outside ℕ
cut_off = record service { publishes = false }

abbrev storm : WeatherReport ℕ
storm = record {
  observation_id = "weather-1";
  observed_at = "150";
  risk_level = "severe";
  alerts = "storm" ∷ [];
  confidence = 8000;
}

-- The leg was seen on time; it is now forty-five minutes late.
abbrev before : World ℕ
before = record {
  store = put_last_observation [] "trip-a" "leg-1" (seen "obs-1" "100" "0");
  published = [];
}

abbrev late : Observation ℕ
late = seen "obs-2" "200" "2700000000"

evaluate_delta-held_example :
    let flight = flight_of request late in
    let after = evaluate_delta service request numerals scaled (fetched late (some storm)) before in
    (held_flight request after.1.store ≡ held_flight request before.store)
    ⊎ (held_flight request after.1.store ≡ some flight)
      × ((held_flight request before.store ≡ none)
          ⊎ IsLater numerals flight (held_flight request before.store))
evaluate_delta-held_example =
    evaluate_delta-held request service tt tt tt numerals scaled late (some storm) before

abbrev value_of : Result (PollOutcome ℕ) → PollOutcome ℕ
value_of (ok o) = o
value_of _ = outcome_of evaluation_pending none none none

abbrev result_with : Outside ℕ → Result (PollOutcome ℕ) × World ℕ
result_with outside =
    evaluate_delta outside request numerals scaled (fetched late (some storm)) before

returns : (result_with service).0 ≡ ok (value_of (result_with service).0)
unfolding evaluate_delta is_stale compare_evidence report emit persist wait_for after_decision
    flight_of flight_fields fields_of weather_fields effective_flight candidate_of confidence_of
    is_corroborated weather_only without_copies event_id remove_prefix changed_fields same_at
    classify_candidate operational_delay movement_delay minutes_between effective_time
    candidate_score parse_timestamp numerals scaled get_last_observation put_last_observation
    get_last_weather put_last_weather get_decision put_candidate_with_outbox put_candidate
    candidate_outbox outbox_record delete_outbox get_item put_item delete_item
returns = refl

returns_cut_off : (result_with cut_off).0 ≡ ok (value_of (result_with cut_off).0)
unfolding evaluate_delta is_stale compare_evidence report emit persist wait_for after_decision
    flight_of flight_fields fields_of weather_fields effective_flight candidate_of confidence_of
    is_corroborated weather_only without_copies event_id remove_prefix changed_fields same_at
    classify_candidate operational_delay movement_delay minutes_between effective_time
    candidate_score parse_timestamp numerals scaled get_last_observation put_last_observation
    get_last_weather put_last_weather get_decision put_candidate_with_outbox put_candidate
    candidate_outbox outbox_record delete_outbox get_item put_item delete_item
returns_cut_off = refl

fails : (value_of (result_with cut_off).0).error_code ≡ some "CANDIDATE_EVENT_PUBLISH_FAILED"
unfolding evaluate_delta is_stale compare_evidence report emit persist wait_for after_decision
    flight_of flight_fields fields_of weather_fields effective_flight candidate_of confidence_of
    is_corroborated weather_only without_copies event_id remove_prefix changed_fields same_at
    classify_candidate operational_delay movement_delay minutes_between effective_time
    candidate_score parse_timestamp numerals scaled get_last_observation put_last_observation
    get_last_weather put_last_weather get_decision put_candidate_with_outbox put_candidate
    candidate_outbox outbox_record delete_outbox get_item put_item delete_item
fails = refl

evaluate_delta-carries_example :
    let o = value_of (result_with service).0 in
    let after = result_with service in
    ((o.candidate ≡ none) × (after.1.published ≡ []))
    ⊎ ((e : PollEvidence ℕ) × (held_flight request before.store ≡ some e.previous_flight)
        × (e.flight ≡ flight_of request late)
        × IsCarriedChange service request numerals scaled e before after.1 o)
evaluate_delta-carries_example =
    evaluate_delta-carries service request numerals scaled late (some storm) before
      (value_of (result_with service).0) refl returns

evaluate_delta-failed_example :
    let after = result_with cut_off in
    (held_flight request after.1.store ≡ held_flight request before.store)
    × (held_weather request after.1.store ≡ held_weather request before.store)
evaluate_delta-failed_example =
    evaluate_delta-failed cut_off request numerals scaled late (some storm) before
      (value_of (result_with cut_off).0) returns_cut_off fails

evaluate_delta-retried_example :
    let after = (result_with cut_off).1 in
    let again = evaluate_delta service request numerals scaled (fetched late (some storm)) after in
    (c : Candidate ℕ) × ((value_of (result_with cut_off).0).candidate ≡ some c)
    × (again.1.published ≡ after.published ++ c ∷ [])
evaluate_delta-retried_example =
    evaluate_delta-retried request numerals scaled late (some storm) cut_off service before
      (value_of (result_with cut_off).0) returns_cut_off fails refl refl refl
