-- ===== src/Policy.antt =====
-- travel_eval/policy.py: the suppression policy, its verdicts and its notification history.
pub mod Rules
pub mod History
use flight_multi_agent.Base.{
  ℕ, ◌+◌, ◌*◌, String, Bool, true, false, ◌&&◌, ◌||◌, not, Option, none, some, List, [], ◌∷◌, ◌++◌,
  leb, ltb, get_or, if◌then◌else◌, str_eq,
}
use flight_multi_agent.Base.Text.{fstring}
use flight_multi_agent.Base.Assoc.{Dict, lookup, insert}
use flight_multi_agent.Base.Result.{Result, ok, ◌>>=◌}
use flight_multi_agent.Clock.{IsoFormat, parse_timestamp, format_timestamp, plus, minute}
use flight_multi_agent.Evidence.{
  Category, cancellation, diversion, connection_risk, delay, gate_change, terminal_change,
  weather_risk, status_change, unlisted, category_text, Verdict, suppress, notify,
  notify_and_search, is_suppress, is_severe, Candidate, Decision,
}

-- `SuppressionPolicy` after `__init__`; the two delay thresholds are the keys of
-- `delay_thresholds`.
pub record Policy : Type 0 where
  pub version : String
  pub search_threshold : ℕ
  pub notify_threshold : ℕ
  pub cooldown_minutes : ℕ

-- The field `highest_notified_band`.
pub record PolicyState : Type 0 where
  pub highest_notified_band : Dict ℕ

abbrev pub no_history : PolicyState
no_history = record { highest_notified_band = [] }

module _ {F : Type 0} where
  abbrev pub delay_of : Candidate F → ℕ
  delay_of candidate = get_or candidate.delay_minutes 0

delay_band : ℕ → ℕ
delay_band minutes =
    if leb 90 minutes then 3 else if leb 30 minutes then 2 else if ltb 0 minutes then 1 else 0

module _ {F : Type 0} where
  unfoldable pub severity_band : Candidate F → ℕ
  unfolding delay_band
  severity_band candidate =
      if is_severe candidate.category then 3 else delay_band (delay_of candidate)

  unfoldable pub episode_key : Candidate F → String
  episode_key candidate =
      fstring
        (candidate.trip_id ∷ ":" ∷ candidate.leg_id ∷ ":" ∷ category_text candidate.category ∷ [])

weather_reason : String → String
weather_reason risk =
    if str_eq risk "none"
    then "WEATHER_CLEARED"
    else if str_eq risk "low" || str_eq risk "moderate"
    then "MINOR_WEATHER_ONLY"
    else "WEATHER_UNCORROBORATED"

-- The ladder of `evaluate` over the category: the verdict and its reason codes.
rule : Policy → Category → ℕ → String → Verdict × List String
unfolding weather_reason
rule policy cancellation minutes risk = (notify_and_search, "FLIGHT_CANCELLED" ∷ [])
rule policy diversion minutes risk = (notify_and_search, "FLIGHT_DIVERTED" ∷ [])
rule policy connection_risk minutes risk = (notify_and_search, "CONNECTION_BELOW_MINIMUM" ∷ [])
rule policy delay minutes risk =
    if leb policy.search_threshold minutes
    then (notify_and_search, "DELAY_SEARCH_THRESHOLD" ∷ [])
    else if leb policy.notify_threshold minutes
    then (notify, "DELAY_NOTIFY_THRESHOLD" ∷ [])
    else (suppress, "DELAY_BELOW_NOTIFY_THRESHOLD" ∷ [])
rule policy gate_change minutes risk = (suppress, "GATE_ONLY_CHANGE" ∷ [])
rule policy terminal_change minutes risk = (suppress, "TERMINAL_ONLY_CHANGE" ∷ [])
rule policy weather_risk minutes risk = (suppress, weather_reason risk ∷ [])
rule policy status_change minutes risk = (suppress, "NON_ACTIONABLE_STATUS_CHANGE" ∷ [])
rule policy (unlisted _) minutes risk = (suppress, "NON_ACTIONABLE_STATUS_CHANGE" ∷ [])

corroborate : Bool → Verdict → List String → List String
corroborate by_weather verdict reasons =
    if not (is_suppress verdict) && by_weather
    then reasons ++ "SEVERE_WEATHER_CORROBORATED" ∷ []
    else reasons

-- `band <= previous_band`, where a missing band counts as -1.
abbrev pub not_above : ℕ → Option ℕ → Bool
not_above band none = false
not_above band (some previous) = leb band previous

-- The verdict, the reason codes and the history, once the ladder has decided.
pub record Ruling : Type 0 where
  pub verdict : Verdict
  pub reason_codes : List String
  pub history : PolicyState

deduplicate : String → ℕ → Verdict → List String → PolicyState → Ruling
deduplicate key band verdict reasons state =
    if is_suppress verdict
    then record { verdict = verdict; reason_codes = reasons; history = state }
    else if not_above band (lookup key state.highest_notified_band)
    then record {
      verdict = suppress;
      reason_codes = "DUPLICATE_SEVERITY_BAND" ∷ [];
      history = state;
    }
    else record {
      verdict = verdict;
      reason_codes = reasons;
      history = record state {
        highest_notified_band = insert key band state.highest_notified_band;
      };
    }

module _ {F : Type 0} where
  -- `evaluate` up to the last test of the history.
  pub ruling : Policy → Candidate F → PolicyState → Ruling
  unfolding rule corroborate deduplicate
  ruling policy candidate state =
      let (verdict, reasons) =
        rule policy candidate.category (delay_of candidate)
          (get_or candidate.weather_risk_level "unknown") in
      deduplicate (episode_key candidate) (severity_band candidate) verdict
        (corroborate (get_or candidate.corroborated_by_weather false) verdict reasons) state

  -- `SuppressionPolicy.evaluate`. The history is written before the timestamp is parsed, so it
  -- comes back beside an exception too.
  unfoldable pub evaluate :
      IsoFormat → Policy → Candidate F → PolicyState → String → Result (Decision F) × PolicyState
  unfolding ruling
  evaluate iso policy candidate state decision_id =
      let r = ruling policy candidate state in
      let decision : Result (Decision F) = do
        decided ← parse_timestamp iso candidate.observed_at
        until ← plus decided (policy.cooldown_minutes * minute)
        ok (record {
          decision_id = decision_id;
          candidate_id = candidate.candidate_id;
          trip_id = candidate.trip_id;
          leg_id = candidate.leg_id;
          decided_at = candidate.observed_at;
          verdict = r.verdict;
          reason_codes = r.reason_codes;
          policy_version = policy.version;
          confidence = candidate.confidence;
          cooldown_until = format_timestamp iso until;
        })
      in (decision, r.history)
