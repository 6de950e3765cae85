-- ===== src/Metrics.antt =====
-- travel_eval/metrics.py and the thresholds of travel_eval/runner.py: how a suite of replays is
-- measured against what was expected of it.
--
-- A result is that of a replay, with the JSON that `as_dict` makes of it. `same` is Python's
-- equality of two values that are neither a dictionary nor a list.
pub mod Replayed
use flight_multi_agent.Base.{
  ℕ, suc, ◌+◌, String, Bool, true, false, not, ◌&&◌, ◌||◌, Option, none, some, List, [], ◌∷◌, any,
  length, str_eq, if◌then◌else◌, ◌==◌,
}
use flight_multi_agent.Base.Json.{
  Json, null, boolean, number, json_text, array, object, Values, no_values, value, Fields,
  no_fields, field, field_of,
}
use flight_multi_agent.Base.Assoc.{Dict, insert, lookup}
use flight_multi_agent.Base.Result.{Result, ok, raise, ◌>>=◌, or_raise, key_error}
use flight_multi_agent.Evidence.{Verdict, suppress, notify, notify_and_search, Decision}
use flight_multi_agent.Observation.{Floats}
use flight_multi_agent.Replay.{ReplayResult, Notification}

module _ (same : Json → Json → Bool) where
  unfoldable mutual
    -- The actual value, and the expected one
    pub is_expected_subset : Json → Json → Bool
    is_expected_subset actual (object expected) = elim actual [
      | object held ↦ has_expected held expected
      | _ ↦ false
    ]
    is_expected_subset actual (array expected) = elim actual [
      | array values ↦ match_each values expected
      | _ ↦ false
    ]
    is_expected_subset actual null = same actual null
    is_expected_subset actual (boolean b) = same actual (boolean b)
    is_expected_subset actual (number n) = same actual (number n)
    is_expected_subset actual (json_text s) = same actual (json_text s)

    pub has_expected : Fields → Fields → Bool
    has_expected held no_fields = true
    has_expected held (field key expected rest) =
        let others = has_expected held rest in
        let found : Bool = elim (field_of key held) [
          | none ↦ false
          | some actual ↦ is_expected_subset actual expected
        ] in
        found && others

    pub match_each : Values → Values → Bool
    match_each actual no_values = elim actual [ no_values ↦ true | _ ↦ false ]
    match_each actual (value expected rest) = elim actual [
      | no_values ↦ false
      | value first others ↦ is_expected_subset first expected && match_each others rest
    ]

-- What is expected of a scenario: its JSON, and its candidates' verdicts
pub record Gold : Type 0 where
  pub scenario_id : String
  pub json : Json
  pub verdicts : List (String × String)

pub record SuiteResult (F : Type 0) : Type 0 where
  pub scenario_id : String
  pub json : Json
  pub result : ReplayResult F

abbrev pub verdict_text : Verdict → String
verdict_text suppress = "SUPPRESS"
verdict_text notify = "NOTIFY"
verdict_text notify_and_search = "NOTIFY_AND_SEARCH"

-- The dictionary of a comprehension: of two items with one key, the last counts.
abbrev dict_of : Dict String → List (String × String) → Dict String
dict_of made [] = made
dict_of made (item ∷ items) = dict_of (insert item.0 item.1 made) items

abbrev is_loud : String → Bool
is_loud verdict = not (str_eq verdict "SUPPRESS")

abbrev count_loud : Dict String → ℕ
count_loud [] = 0
count_loud (item ∷ items) = let rest = count_loud items in if is_loud item.1 then suc rest else rest

-- The approved candidates that were to be approved
abbrev count_true : Dict String → Dict String → ℕ
count_true gold [] = 0
count_true gold (item ∷ items) =
    let rest = count_true gold items in
    let meant : Bool = elim (lookup item.0 gold) [
      | none ↦ false
      | some v ↦ str_eq v "NOTIFY" || str_eq v "NOTIFY_AND_SEARCH"
    ] in
    if is_loud item.1 && meant then suc rest else rest

-- The variables of the loop
pub record Counts : Type 0 where
  pub scenario_passes : ℕ
  pub expected_notify : ℕ
  pub actual_notify : ℕ
  pub true_notify : ℕ
  pub duplicate_keys : ℕ
  pub unauthorized : ℕ
  pub notification_keys : List String

abbrev no_counts : Counts
no_counts = record {
  scenario_passes = 0;
  expected_notify = 0;
  actual_notify = 0;
  true_notify = 0;
  duplicate_keys = 0;
  unauthorized = 0;
  notification_keys = [];
}

pub record SuiteMetrics (F : Type 0) : Type 0 where
  pub scenario_pass_rate : F
  pub notification_precision : F
  pub material_disruption_recall : F
  pub duplicate_notification_rate : F
  pub unauthorized_notification_count : ℕ
  pub scenarios_evaluated : ℕ

-- The last of the expectations with the scenario's id
unfoldable pub gold_of : String → List Gold → Option Gold
gold_of scenario_id [] = none
gold_of scenario_id (gold ∷ golds) =
    let later = gold_of scenario_id golds in
    elim later [
      | some g ↦ some g
      | none ↦ if str_eq gold.scenario_id scenario_id then some gold else none
    ]

module _ {F : Type 0} where
  abbrev verdicts_of : List (Decision F) → List (String × String)
  verdicts_of [] = []
  verdicts_of (d ∷ decisions) = (d.candidate_id, verdict_text d.verdict) ∷ verdicts_of decisions

  -- The id of a notification is that of a decision that does not suppress.
  abbrev pub is_approved : List (Decision F) → Notification → Bool
  is_approved decisions n =
      any (λ d. is_loud (verdict_text d.verdict) && str_eq d.decision_id n.decision_id) decisions

  unfoldable pub count_notifications : List (Decision F) → List Notification → Counts → Counts
  count_notifications decisions [] counts = counts
  count_notifications decisions (n ∷ notifications) counts =
      let unauthorized =
        if is_approved decisions n then counts.unauthorized else suc counts.unauthorized in
      let duplicates =
        if any (str_eq n.idempotency_key) counts.notification_keys
        then suc counts.duplicate_keys
        else counts.duplicate_keys in
      count_notifications decisions notifications (record counts {
        unauthorized = unauthorized;
        duplicate_keys = duplicates;
        notification_keys = n.idempotency_key ∷ counts.notification_keys;
      })

  module _ (same : Json → Json → Bool) where
    unfoldable pub count_result : SuiteResult F → Gold → Counts → Counts
    count_result actual gold counts =
        let gold_decisions = dict_of [] gold.verdicts in
        let decisions = dict_of [] (verdicts_of actual.result.decisions) in
        let passed =
          if is_expected_subset same actual.json gold.json
          then suc counts.scenario_passes
          else counts.scenario_passes in
        count_notifications actual.result.decisions actual.result.notifications (record counts {
          scenario_passes = passed;
          expected_notify = counts.expected_notify + count_loud gold_decisions;
          actual_notify = counts.actual_notify + count_loud decisions;
          true_notify = counts.true_notify + count_true gold_decisions decisions;
        })

    unfoldable pub count_suite : List Gold → List (SuiteResult F) → Counts → Result Counts
    count_suite expected [] counts = ok counts
    count_suite expected (actual ∷ results) counts = do
      gold ← or_raise (gold_of actual.scenario_id expected) key_error
      count_suite expected results (count_result actual gold counts)

    module _ (floats : Floats F) where
      unfoldable pub safe_ratio : ℕ → ℕ → F
      safe_ratio numerator denominator =
          if denominator == 0 then floats.ratio 1 1 else floats.ratio numerator denominator

      unfoldable pub calculate_metrics : List (SuiteResult F) → List Gold → Result (SuiteMetrics F)
      calculate_metrics results expected = do
        counts ← count_suite expected results no_counts
        ok (record {
          scenario_pass_rate = floats.round4 (safe_ratio counts.scenario_passes (length expected));
          notification_precision =
              floats.round4 (safe_ratio counts.true_notify counts.actual_notify);
          material_disruption_recall =
              floats.round4 (safe_ratio counts.true_notify counts.expected_notify);
          duplicate_notification_rate =
              floats.round4 (safe_ratio counts.duplicate_keys counts.actual_notify);
          unauthorized_notification_count = counts.unauthorized;
          scenarios_evaluated = length expected;
        })
