-- ===== src/Evidence.antt =====
-- The dictionaries that pass between the monitoring agent, the policy and the replay engine, as
-- records (travel_eval/engine.py, travel_eval/policy.py).
--
-- A key that the source reads by `get` is an `Option`, `none` where it is missing. Every record has
-- the constant `schema_version` "1.0.0", which is left out. `F` is the type of the confidences and
-- scores, which are floats.
use flight_multi_agent.Base.{ℕ, String, Bool, true, false, Option, List}
use flight_multi_agent.Base.Int.{ℤ}

pub data Category : Type 0 where
  cancellation diversion connection_risk delay : Category
  gate_change terminal_change weather_risk status_change : Category
  -- any other text
  unlisted : String → Category

-- The text of a category, as it stands in the dictionaries.
abbrev pub category_text : Category → String
category_text cancellation = "CANCELLATION"
category_text diversion = "DIVERSION"
category_text connection_risk = "CONNECTION_RISK"
category_text delay = "DELAY"
category_text gate_change = "GATE_CHANGE"
category_text terminal_change = "TERMINAL_CHANGE"
category_text weather_risk = "WEATHER_RISK"
category_text status_change = "STATUS_CHANGE"
category_text (unlisted text) = text

abbrev pub is_severe : Category → Bool
is_severe cancellation = true
is_severe diversion = true
is_severe connection_risk = true
is_severe _ = false

pub data Verdict : Type 0 where
  suppress notify notify_and_search : Verdict

abbrev pub is_suppress : Verdict → Bool
is_suppress suppress = true
is_suppress _ = false

abbrev pub is_search : Verdict → Bool
is_search notify_and_search = true
is_search _ = false

-- The paths that `changed_fields` compares, in its order.
pub data Field : Type 0 where
  status departure_estimated_at departure_actual_at departure_terminal departure_gate : Field
  arrival_estimated_at arrival_actual_at arrival_terminal arrival_gate : Field
  weather_risk_level weather_alerts : Field

pub record Delta : Type 0 where
  pub delta_id : String
  pub trip_id : String
  pub leg_id : String
  pub previous_observation_id : String
  pub current_observation_id : String
  pub observed_at : String
  pub changed_fields : List Field
  pub delay_minutes_before : ℕ
  pub delay_minutes_after : ℕ
  pub delay_change_minutes : ℤ

pub record Candidate (F : Type 0) : Type 0 where
  pub candidate_id : String
  pub delta : Delta
  pub trip_id : String
  pub leg_id : String
  pub observed_at : String
  pub category : Category
  pub delay_minutes : Option ℕ
  pub connection_buffer_minutes : Option ℤ
  pub minimum_connection_minutes : Option ℤ
  pub weather_risk_level : Option String
  pub weather_evidence_status : Option String
  pub corroborated_by_weather : Option Bool
  pub confidence : F
  pub score : F
  pub evidence_observation_ids : List String

pub record Decision (F : Type 0) : Type 0 where
  pub decision_id : String
  pub candidate_id : String
  pub trip_id : String
  pub leg_id : String
  pub decided_at : String
  pub verdict : Verdict
  pub reason_codes : List String
  pub policy_version : String
  pub confidence : F
  pub cooldown_until : String
