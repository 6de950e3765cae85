-- ===== src/Wording.antt =====
-- The facts that a notification is worded from, and the wording without a language model
-- (flight_agent/disruption_explanation.py, and `_explanation_request` and `_friendly_explanation`
-- of flight_agent/notification_action_service.py).
use flight_multi_agent.Base.{
  ℕ, String, Bool, true, false, ◌&&◌, Option, none, some, List, [], ◌∷◌, leb, length, if◌then◌else◌,
  str_eq, ◌||◌,
}
use flight_multi_agent.Base.Text.{fstring}
use flight_multi_agent.Base.Decimal.{decimal}
use flight_multi_agent.Base.Int.{ℤ, pos, negsuc}
use flight_multi_agent.Base.Result.{Result, ok, raise, value_error, key_error}
use flight_multi_agent.Evidence.{
  Candidate, Category, cancellation, diversion, connection_risk, delay, gate_change,
  terminal_change, weather_risk, status_change, unlisted, Verdict, is_search,
}
use flight_multi_agent.Events.{ConfirmedEvent, Explanation}

-- `DisruptionExplanationRequest`
pub record ExplanationRequest : Type 0 where
  pub category : Category
  pub verdict : Verdict
  pub reason_codes : List String
  pub delay_minutes : Option ℕ
  pub connection_buffer_minutes : Option ℤ
  pub minimum_connection_minutes : Option ℤ
  pub weather_risk_level : Option String
  pub corroborated_by_weather : Option Bool
  pub search_requested : Bool

abbrev pub at_most : ℕ → Option ℕ → Bool
at_most bound none = true
at_most bound (some n) = leb n bound

-- The integer is not below minus `low` and not above `high`.
abbrev pub within : ℕ → ℕ → Option ℤ → Bool
within low high none = true
within low high (some (pos n)) = leb n high
within low high (some (negsuc n)) = if leb low n then false else true

-- The bounds of the fields, of which `search_requested` agrees with the verdict.
unfoldable pub is_acceptable : ExplanationRequest → Bool
is_acceptable r =
    leb 1 (length r.reason_codes)
    && (leb (length r.reason_codes) 5
        && (at_most 2880 r.delay_minutes
            && (within 1440 2880 r.connection_buffer_minutes
                && within 0 1440 r.minimum_connection_minutes)))

-- A level that the request does not know is dropped.
abbrev known_level : Option String → Option String
known_level none = none
known_level (some level) =
    if str_eq level "none"
      || (str_eq level "low" || (str_eq level "moderate" || str_eq level "severe"))
    then some level
    else none

module _ {F : Type 0} where
  abbrev pub facts_of : ConfirmedEvent → Option (Candidate F) → ExplanationRequest
  facts_of e none = record {
    category = e.category;
    verdict = e.verdict;
    reason_codes = e.reason_codes;
    delay_minutes = none;
    connection_buffer_minutes = none;
    minimum_connection_minutes = none;
    weather_risk_level = none;
    corroborated_by_weather = none;
    search_requested = is_search e.verdict;
  }
  facts_of e (some c) = record {
    category = e.category;
    verdict = e.verdict;
    reason_codes = e.reason_codes;
    delay_minutes = c.delay_minutes;
    connection_buffer_minutes = c.connection_buffer_minutes;
    minimum_connection_minutes = c.minimum_connection_minutes;
    weather_risk_level = known_level c.weather_risk_level;
    corroborated_by_weather = c.corroborated_by_weather;
    search_requested = is_search e.verdict;
  }

  unfoldable pub explanation_request :
      ConfirmedEvent → Option (Candidate F) → Result ExplanationRequest
  explanation_request e c =
      if is_acceptable (facts_of e c) then ok (facts_of e c) else raise value_error

abbrev delay_message : Option ℕ → String
delay_message none = "Your flight has a significant delay."
delay_message (some minutes) =
    fstring ("Your flight is now delayed by " ∷ decimal minutes ∷ " minutes." ∷ [])

abbrev fallback_message : ExplanationRequest → Result String
fallback_message r = elim r.category [
  | cancellation ↦ ok "Your flight has been cancelled."
  | diversion ↦ ok "Your flight has been diverted to a different airport."
  | connection_risk ↦ ok "This disruption may put your connection at risk."
  | delay ↦ ok (delay_message r.delay_minutes)
  | gate_change ↦ ok "Your flight's departure gate has changed."
  | terminal_change ↦ ok "Your flight's terminal has changed."
  | weather_risk ↦ ok "Severe weather may affect your flight."
  | status_change ↦ ok "There has been a significant change to your flight."
  | unlisted _ ↦ raise key_error
]

unfoldable pub deterministic_explanation : ExplanationRequest → Option String → Result Explanation
deterministic_explanation r error_code = elim (fallback_message r) [
  | raise e ↦ raise e
  | ok message ↦ ok (record {
    message = message;
    status = "fallback";
    source = "deterministic";
    model = none;
    prompt_version = "disruption-explanation-v1";
    error_code = error_code;
  })
]

-- The communication agent, if there is one; its `none` is an exception.
unfoldable pub friendly_explanation :
    Option (ExplanationRequest → Option Explanation) → ExplanationRequest → Result Explanation
friendly_explanation none r = deterministic_explanation r none
friendly_explanation (some communicator) r = elim (communicator r) [
  | some wording ↦ ok wording
  | none ↦ deterministic_explanation r (some "EXPLANATION_AGENT_UNAVAILABLE")
]
