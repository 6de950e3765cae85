-- ===== src/Monitoring/Judge.antt =====
-- flight_agent/monitoring_flow.py, `evaluate_delta`: the comparison of the evidence with the one
-- kept from the poll before, and the candidate that a change gives.
use flight_multi_agent.Base.{
  String, Bool, true, false, ◌&&◌, ◌||◌, Option, none, some, List, [], ◌∷◌, ◌++◌, any, is_some,
  if◌then◌else◌, str_eq,
}
use flight_multi_agent.Base.Int.{pos, ◌-ℤ◌}
use flight_multi_agent.Base.Result.{Result, ok, ◌>>=◌}
use flight_multi_agent.Clock.{IsoFormat}
use flight_multi_agent.Evidence.{
  Candidate, Category, Field, delay, cancellation, diversion, connection_risk, weather_risk,
}
use flight_multi_agent.Observation.{
  Observation, Weather, Floats, no_weather, changed_fields, classify_candidate, candidate_score,
  operational_delay,
}
use flight_multi_agent.MonitoringStore.{WeatherReport}
use flight_multi_agent.Monitoring.{PollRequest, weather_fields, event_id}

abbrev is_high : String → Bool
is_high risk = str_eq risk "high" || str_eq risk "severe"

abbrev can_corroborate : Category → Bool
can_corroborate delay = true
can_corroborate cancellation = true
can_corroborate diversion = true
can_corroborate connection_risk = true
can_corroborate _ = false

abbrev is_weather_risk : Category → Bool
is_weather_risk weather_risk = true
is_weather_risk _ = false

-- `list(dict.fromkeys(texts))`: the first of equal texts stays.
unfoldable pub without_copies : List String → List String → List String
without_copies seen [] = seen
without_copies seen (text ∷ texts) =
    let fresh = without_copies (seen ++ text ∷ []) texts in
    let known = without_copies seen texts in
    if any (λ other. str_eq other text) seen then known else fresh

-- What two polls in a row have: the kept evidence, and that of the poll.
pub record PollEvidence (F : Type 0) : Type 0 where
  pub previous_flight : Observation F
  pub previous_weather : Option (WeatherReport F)
  pub flight : Observation F
  pub current_weather : Option (WeatherReport F)
  pub stale : Bool

module _ {F : Type 0} where
  -- The provider's observation as one of the request's leg, without its old weather field.
  unfoldable pub flight_of : PollRequest → Observation F → Observation F
  flight_of request provided = record provided {
    trip_id = request.trip_id;
    leg_id = request.leg_id;
    flight_iata = some request.flight_iata;
    flight_date = some request.flight_date;
    weather = none;
  }

  abbrev bare : Observation F → Observation F
  bare o = record o { weather = some no_weather }

  abbrev pub weather_of : Option (WeatherReport F) → Weather
  weather_of none = no_weather
  weather_of (some w) = record { risk_level = some w.risk_level; alerts = some w.alerts }

  unfoldable pub effective_flight : PollEvidence F → Observation F
  effective_flight e = if e.stale then e.previous_flight else e.flight

  unfoldable pub flight_fields : PollEvidence F → List Field
  flight_fields e = if e.stale then [] else changed_fields (bare e.previous_flight) (bare e.flight)

  unfoldable pub fields_of : PollEvidence F → List Field
  fields_of e = flight_fields e ++ weather_fields e.previous_weather e.current_weather

  -- Whether the change is one of the weather alone, with the weather.
  unfoldable pub weather_only : PollEvidence F → Option (WeatherReport F)
  weather_only e = elim (flight_fields e) [ [] ↦ e.current_weather | _ ↦ none ]

  abbrev risk_text : Option (WeatherReport F) → String
  risk_text none = "unknown"
  risk_text (some w) = w.risk_level

  unfoldable pub is_corroborated : Category → Option (WeatherReport F) → Bool
  is_corroborated category current = can_corroborate category && is_high (risk_text current)

  abbrev weather_id : Option (WeatherReport F) → List String
  weather_id none = []
  weather_id (some w) = w.observation_id ∷ []

  module _ (iso : IsoFormat) (floats : Floats F) (request : PollRequest) where
    unfoldable pub confidence_of : Category → PollEvidence F → F
    unfolding is_corroborated
    confidence_of category e = elim e.current_weather [
      | none ↦ (effective_flight e).confidence
      | some w ↦
          if is_weather_risk category
          then w.confidence
          else if is_corroborated category e.current_weather
          then floats.minimum (effective_flight e).confidence w.confidence
          else (effective_flight e).confidence
    ]

    -- The id of the evidence that made the change, and when it was observed.
    abbrev source_of : PollEvidence F → String × String
    source_of e = elim (weather_only e) [
      | none ↦ ((effective_flight e).observation_id, (effective_flight e).observed_at)
      | some w ↦ (w.observation_id, w.observed_at)
    ]

    abbrev pub newest_weather : PollEvidence F → Option (WeatherReport F)
    newest_weather e = if is_some e.current_weather then e.current_weather else e.previous_weather

    unfoldable pub candidate_of : PollEvidence F → Result (Candidate F)
    unfolding confidence_of
    candidate_of e = do
      before_delay ← operational_delay iso e.previous_flight
      after_delay ← operational_delay iso (effective_flight e)
      category ←
          classify_candidate iso
            (record (effective_flight e) { weather = some (weather_of (newest_weather e)) })
            (fields_of e) none none
      score ← candidate_score floats category after_delay (confidence_of category e)
      ok (record {
        candidate_id = event_id "cand" request (source_of e).0;
        delta = record {
          delta_id = event_id "delta" request (source_of e).0;
          trip_id = request.trip_id;
          leg_id = request.leg_id;
          previous_observation_id = e.previous_flight.observation_id;
          current_observation_id = (effective_flight e).observation_id;
          observed_at = (source_of e).1;
          changed_fields = fields_of e;
          delay_minutes_before = before_delay;
          delay_minutes_after = after_delay;
          delay_change_minutes = pos after_delay -ℤ pos before_delay;
        };
        trip_id = request.trip_id;
        leg_id = request.leg_id;
        observed_at = (source_of e).1;
        category = category;
        delay_minutes = some after_delay;
        connection_buffer_minutes = none;
        minimum_connection_minutes = none;
        weather_risk_level = some (risk_text e.current_weather);
        weather_evidence_status =
            some (if is_some e.current_weather then "available" else "unavailable");
        corroborated_by_weather = some (is_corroborated category e.current_weather);
        confidence = confidence_of category e;
        score = score;
        evidence_observation_ids = without_copies [] (
            e.previous_flight.observation_id
              ∷ (effective_flight e).observation_id
              ∷ weather_id e.previous_weather
            ++ weather_id e.current_weather);
      })
