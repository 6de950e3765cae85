-- ===== src/Observation.antt =====
-- travel_eval/engine.py, the functions on observations: delays, changed fields, classification and
-- scores. They are shared by the replay engine and the monitoring agent.
--
-- An observation is its dictionary as a record; an `Option` is `none` where a key is missing or
-- holds `None`. `Floats` is the arithmetic of the language's floats.
pub mod Changes
use flight_multi_agent.Base.{
  ℕ, ◌-◌, ◌+◌, String, Bool, true, false, ◌&&◌, ◌||◌, not, Option, none, some, List, [], ◌∷◌, any,
  all, get_or, ltb, max, if◌then◌else◌, str_eq,
}
use flight_multi_agent.Base.Int.{ℤ, pos, negsuc, ◌-ℤ◌, floor_div, ltb_ℤ, pos_part}
use flight_multi_agent.Base.Text.{truthy}
use flight_multi_agent.Base.Result.{Result, ok, raise, key_error, ◌>>=◌}
use flight_multi_agent.Clock.{IsoFormat, parse_timestamp, minute}
use flight_multi_agent.Evidence.{
  Category, cancellation, diversion, connection_risk, delay, gate_change, terminal_change,
  weather_risk, status_change, unlisted, Field, status, departure_estimated_at, departure_actual_at,
  departure_terminal, departure_gate, arrival_estimated_at, arrival_actual_at, arrival_terminal,
  arrival_gate, weather_risk_level, weather_alerts,
}

pub record Movement : Type 0 where
  pub scheduled_at : String
  pub estimated_at : Option String
  pub actual_at : Option String
  pub terminal : Option String
  pub gate : Option String

pub record Weather : Type 0 where
  pub risk_level : Option String
  pub alerts : Option (List String)

pub record Observation (F : Type 0) : Type 0 where
  pub observation_id : String
  pub trip_id : String
  pub leg_id : String
  pub flight_iata : Option String
  pub flight_date : Option String
  pub departure_airport : Option String
  pub destination_airport : Option String
  pub source_event_time : String
  pub observed_at : String
  pub status : String
  pub departure : Movement
  pub arrival : Movement
  pub weather : Option Weather
  pub confidence : F

-- Python's `a or b` on texts: a missing or empty text gives way to the next.
abbrev pub or_else : Option String → String → String
or_else none other = other
or_else (some text) other = if truthy text then text else other

unfoldable pub effective_time : Movement → String
effective_time section =
    or_else section.actual_at (or_else section.estimated_at section.scheduled_at)

module _ (iso : IsoFormat) where
  unfoldable pub minutes_between : String → String → Result ℤ
  unfolding floor_div ◌-ℤ◌
  minutes_between start end = do
    last ← parse_timestamp iso end
    first ← parse_timestamp iso start
    ok (floor_div (pos last -ℤ pos first) minute)

  -- `max(0, minutes)`
  unfoldable pub movement_delay : Movement → Result ℕ
  unfolding minutes_between effective_time
  movement_delay section = do
    minutes ← minutes_between section.scheduled_at (effective_time section)
    ok (pos_part minutes)

  unfoldable pub operational_delay : {F : Type 0} → Observation F → Result ℕ
  unfolding movement_delay
  operational_delay observation = do
    outbound ← movement_delay observation.departure
    inbound ← movement_delay observation.arrival
    ok (max outbound inbound)

-- Equality of optional texts and of lists of texts, as Python's `!=` sees it.
abbrev pub text_eq? : Option String → Option String → Bool
text_eq? none none = true
text_eq? (some a) (some b) = str_eq a b
text_eq? _ _ = false

abbrev pub texts_eq : List String → List String → Bool
texts_eq [] [] = true
texts_eq (a ∷ as') (b ∷ bs) = str_eq a b && texts_eq as' bs
texts_eq _ _ = false

abbrev pub texts_eq? : Option (List String) → Option (List String) → Bool
texts_eq? none none = true
texts_eq? (some as') (some bs) = texts_eq as' bs
texts_eq? _ _ = false

abbrev pub no_weather : Weather
no_weather = record { risk_level = none; alerts = none }

-- Whether the two observations agree at one path; a path through a missing `weather` is `None`.
module _ {F : Type 0} where
  unfoldable pub same_at : Observation F → Observation F → Field → Bool
  same_at left right status = str_eq left.status right.status
  same_at left right departure_estimated_at =
      text_eq? left.departure.estimated_at right.departure.estimated_at
  same_at left right departure_actual_at =
      text_eq? left.departure.actual_at right.departure.actual_at
  same_at left right departure_terminal = text_eq? left.departure.terminal right.departure.terminal
  same_at left right departure_gate = text_eq? left.departure.gate right.departure.gate
  same_at left right arrival_estimated_at =
      text_eq? left.arrival.estimated_at right.arrival.estimated_at
  same_at left right arrival_actual_at = text_eq? left.arrival.actual_at right.arrival.actual_at
  same_at left right arrival_terminal = text_eq? left.arrival.terminal right.arrival.terminal
  same_at left right arrival_gate = text_eq? left.arrival.gate right.arrival.gate
  same_at left right weather_risk_level =
      text_eq? (get_or left.weather no_weather).risk_level
        (get_or right.weather no_weather).risk_level
  same_at left right weather_alerts =
      texts_eq? (get_or left.weather no_weather).alerts (get_or right.weather no_weather).alerts

  pub differing : Observation F → Observation F → List Field → List Field
  differing previous current [] = []
  differing previous current (field ∷ fields) =
      let rest = differing previous current fields in
      if same_at previous current field then rest else field ∷ rest

abbrev pub all_fields : List Field
all_fields =
    status ∷ departure_estimated_at ∷ departure_actual_at ∷ departure_terminal ∷ departure_gate
    ∷ arrival_estimated_at ∷ arrival_actual_at ∷ arrival_terminal ∷ arrival_gate
    ∷ weather_risk_level ∷ weather_alerts ∷ []

module _ {F : Type 0} where
  unfoldable pub changed_fields : Observation F → Observation F → List Field
  unfolding differing same_at
  changed_fields previous current = differing previous current all_fields

abbrev pub is_delay_field : Field → Bool
is_delay_field departure_estimated_at = true
is_delay_field departure_actual_at = true
is_delay_field arrival_estimated_at = true
is_delay_field arrival_actual_at = true
is_delay_field _ = false

abbrev pub is_gate_field : Field → Bool
is_gate_field departure_gate = true
is_gate_field arrival_gate = true
is_gate_field _ = false

abbrev pub is_terminal_field : Field → Bool
is_terminal_field departure_terminal = true
is_terminal_field arrival_terminal = true
is_terminal_field field = is_gate_field field

abbrev pub is_weather_field : Field → Bool
is_weather_field weather_risk_level = true
is_weather_field weather_alerts = true
is_weather_field _ = false

-- `field_set and field_set <= {...}`
abbrev pub only : (Field → Bool) → List Field → Bool
only p [] = false
only p (field ∷ fields) = all p (field ∷ fields)

-- `buffer is not None and minimum is not None and buffer < minimum`
abbrev pub is_short : Option ℤ → Option ℤ → Bool
is_short (some buffer) (some minimum) = ltb_ℤ buffer minimum
is_short _ _ = false

-- `classify_candidate` below its first three tests, with the delay at hand.
pub classify_fields : ℕ → List Field → Category
classify_fields minutes fields =
    if ltb 0 minutes && any is_delay_field fields
    then delay
    else if only is_gate_field fields
    then gate_change
    else if only is_terminal_field fields
    then terminal_change
    else if only is_weather_field fields
    then weather_risk
    else status_change

module _ {F : Type 0} (iso : IsoFormat) where
  unfoldable pub classify_candidate :
      Observation F → List Field → Option ℤ → Option ℤ → Result Category
  unfolding classify_fields
  classify_candidate current fields buffer minimum =
      let by_delay : Result Category = do
        minutes ← operational_delay iso current
        ok (classify_fields minutes fields)
      in if str_eq current.status "cancelled"
        then ok cancellation
        else if str_eq current.status "diverted"
        then ok diversion
        else if is_short buffer minimum
        then ok connection_risk
        else by_delay

-- The float operations that the scores use. `ratio a b` is `a / b`, and `round4` is `round(x, 4)`.
pub record Floats (F : Type 0) : Type 0 where
  pub ratio : ℕ → ℕ → F
  pub add : F → F → F
  pub times : F → F → F
  pub minimum : F → F → F
  pub round4 : F → F

module _ {F : Type 0} (floats : Floats F) where
  base_score : Category → ℕ → Result F
  base_score cancellation minutes = ok (floats.ratio 1 1)
  base_score diversion minutes = ok (floats.ratio 1 1)
  base_score connection_risk minutes = ok (floats.ratio 95 100)
  base_score delay minutes = ok (
      floats.minimum (floats.ratio 9 10)
        (floats.add (floats.ratio 2 10) (floats.ratio minutes 120)))
  base_score weather_risk minutes = ok (floats.ratio 45 100)
  base_score terminal_change minutes = ok (floats.ratio 25 100)
  base_score gate_change minutes = ok (floats.ratio 1 10)
  base_score status_change minutes = ok (floats.ratio 2 10)
  base_score (unlisted _) minutes = raise key_error

  unfoldable pub candidate_score : Category → ℕ → F → Result F
  unfolding base_score
  candidate_score category minutes confidence = do
    base ← base_score category minutes
    ok (floats.round4 (floats.times base confidence))
