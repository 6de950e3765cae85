-- ===== src/Examples/Replays.antt =====
-- A scenario of one leg: on time, late by 45 minutes, a repeated report, and an old report.
use flight_multi_agent.Base.{ℕ, ◌≡◌, refl, Bool, false, List, [], ◌∷◌, length, str_eq}
use flight_multi_agent.Base.Assoc.{lookup, insert}
use flight_multi_agent.Base.Result.{Result, ok, raise, ◌>>=◌}
use flight_multi_agent.Clock.{parse_timestamp, format_timestamp, plus, now}
use flight_multi_agent.Observation.{operational_delay, classify_candidate, candidate_score}
use flight_multi_agent.Policy.{evaluate, episode_key, severity_band}
use flight_multi_agent.Replay.{Scenario, ReplayResult, new_run, replay, notification_for}
use flight_multi_agent.Replay.NoDuplicates.{KeysDiffer, replay-KeysDiffer}
use flight_multi_agent.Replay.Authority.{IsAccounted, replay-IsAccounted}
use flight_multi_agent.Base.Json.{Json, null, no_fields, object, json_text, field}
use flight_multi_agent.Metrics.{
  Gold, SuiteResult, SuiteMetrics, is_expected_subset, gold_of, count_notifications, count_result,
  count_suite, safe_ratio, calculate_metrics,
}
use flight_multi_agent.Metrics.Replayed.{calculate_metrics-authorized}
use flight_multi_agent.Examples.Sample.{numerals, scaled, policy_v1, seen}

abbrev late_flight : Scenario ℕ
late_flight = record {
  scenario_id = "s";
  observations =
      record { received_at = "300"; observation = seen "obs-2" "290" "2700000000" }
      ∷ record { received_at = "200"; observation = seen "obs-1" "190" "0" }
      ∷ record { received_at = "400"; observation = seen "obs-3" "390" "2760000000" }
      ∷ record { received_at = "500"; observation = seen "obs-0" "100" "0" }
      ∷ [];
  connection_context = [];
}

abbrev outcome : Result (ReplayResult ℕ)
outcome = replay numerals scaled policy_v1 late_flight

abbrev summary : Result (ReplayResult ℕ) → Result (ℕ × ℕ × ℕ × ℕ)
summary r = r >>= λ x. ok (
  length x.candidates,
  length x.decisions,
  length x.notifications,
  length x.ignored_observation_ids,
)

counts : summary outcome ≡ ok (2, 2, 1, 1)
unfolding replay evaluate episode_key severity_band lookup insert parse_timestamp format_timestamp
    plus numerals scaled now operational_delay classify_candidate candidate_score notification_for
counts = refl

empty_result : ReplayResult ℕ
empty_result = new_run.result

abbrev replayed : ReplayResult ℕ
replayed = elim outcome [ ok r ↦ r | raise _ ↦ empty_result ]

returns : replay numerals scaled policy_v1 late_flight ≡ ok replayed
unfolding replay evaluate episode_key severity_band lookup insert parse_timestamp format_timestamp
    plus numerals scaled now operational_delay classify_candidate candidate_score notification_for
returns = refl

replay-KeysDiffer_example : KeysDiffer replayed.notifications
replay-KeysDiffer_example = replay-KeysDiffer numerals scaled policy_v1 late_flight replayed returns

replay-IsAccounted_example : IsAccounted replayed
replay-IsAccounted_example =
    replay-IsAccounted numerals scaled policy_v1 late_flight replayed returns

-- A suite of the one scenario, whose candidate was to be notified of.
abbrev same_text : Json → Json → Bool
same_text (json_text a) (json_text b) = str_eq a b
same_text _ _ = false

abbrev suite : List (SuiteResult ℕ)
suite =
    record {
      scenario_id = "s";
      json = object (field "a" (json_text "b") (field "c" null no_fields));
      result = replayed;
    }
    ∷ []

abbrev expected : List Gold
expected =
    record {
      scenario_id = "s";
      json = object (field "a" (json_text "b") no_fields);
      verdicts = ("cand-a", "NOTIFY") ∷ [];
    }
    ∷ []

abbrev metrics_of : Result (SuiteMetrics ℕ) → SuiteMetrics ℕ
metrics_of (ok metrics) = metrics
metrics_of (raise e) = record {
  scenario_pass_rate = 0;
  notification_precision = 0;
  material_disruption_recall = 0;
  duplicate_notification_rate = 0;
  unauthorized_notification_count = 1;
  scenarios_evaluated = 0;
}

abbrev measured : SuiteMetrics ℕ
measured = metrics_of (calculate_metrics same_text scaled suite expected)

measures : calculate_metrics same_text scaled suite expected ≡ ok measured
unfolding calculate_metrics count_suite gold_of
measures = refl

passes : measured.scenario_pass_rate ≡ 10000
unfolding calculate_metrics count_suite gold_of count_result count_notifications is_expected_subset
    insert scaled safe_ratio replay evaluate episode_key severity_band lookup parse_timestamp
    format_timestamp plus numerals now operational_delay classify_candidate candidate_score
    notification_for
passes = refl

calculate_metrics-authorized_example : measured.unauthorized_notification_count ≡ 0
calculate_metrics-authorized_example =
    calculate_metrics-authorized same_text numerals scaled policy_v1 suite expected measured
      ((late_flight, returns), tt) measures
