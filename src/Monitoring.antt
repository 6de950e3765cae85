-- ===== src/Monitoring.antt =====
-- flight_agent/monitoring_flow.py, `FlightMonitoringFlow`: one poll of a leg, from the evidence of
-- the two gateways to the candidate event and the state that is kept for the next poll
-- (its request and outcome are in flight_agent/monitoring_contracts.py).
--
-- `Outside` holds what the calls out of the flow return, with `none` or `false` for an exception.
-- A gateway's answer has passed its contract, so that an airport code has upper-case letters.
-- `waiting`, `until_notified` and `until_searched` are what other callers do to the store between
-- the readings of each wait, and the end of each is its deadline. The single writes of the store,
-- outside the block of the publication, are taken to return.
pub mod Judge
pub mod Poll
pub mod Steps
pub mod Emitted
pub mod Persisted
pub mod Published
pub mod Retried
use Prim.Native.String
use flight_multi_agent.Base.{
  ℕ, ◌+◌, String, Bool, true, false, not, ◌&&◌, ◌||◌, Option, none, some, List, [], ◌∷◌, ◌++◌, any,
  length, get_or, is_some, leb, ◌==◌, if◌then◌else◌, str_eq,
}
use flight_multi_agent.Base.Int.{ℤ, pos, ◌-ℤ◌}
use flight_multi_agent.Base.Text.{fstring, remove_prefix, truthy}
use flight_multi_agent.Base.Table.{Table}
use flight_multi_agent.Base.Assoc.{Dict}
use flight_multi_agent.Base.Result.{Result, ok, raise, ◌>>=◌, Error}
use flight_multi_agent.Clock.{IsoFormat, parse_timestamp}
use flight_multi_agent.Evidence.{
  Candidate, Category, Decision, Field, weather_risk_level, weather_alerts, delay, cancellation,
  diversion, connection_risk, weather_risk, is_search,
}
use flight_multi_agent.Events.{ConfirmedEvent, NotificationRecord, disruption_candidate}
use flight_multi_agent.Offers.{SearchRecord}
use flight_multi_agent.Observation.{
  Observation, Weather, Floats, no_weather, changed_fields, classify_candidate, candidate_score,
  operational_delay, text_eq?, texts_eq,
}
use flight_multi_agent.MonitoringStore.{
  Item, WeatherReport, get_last_observation, put_last_observation, get_last_weather,
  put_last_weather, get_decision, get_confirmed_event, get_notification, get_search,
}
use flight_multi_agent.MonitoringStore.Outbox.{put_candidate_with_outbox, delete_outbox}

-- `MonitoringPollRequest`
pub record PollRequest : Type 0 where
  pub trip_id : String
  pub leg_id : String
  pub flight_iata : String
  pub flight_date : String
  pub replay_key : Option String

-- What is known when the evidence is fetched (`MonitoringState`): that the flight's status is
-- unavailable, or its observation with the weather, `none` where that is unavailable.
pub data Fetched (F : Type 0) : Type 0 where
  unavailable : Fetched F
  fetched : Observation F → Option (WeatherReport F) → Fetched F

-- A flight's status as its gateway returns it; the airport is that of its own old weather field.
pub record FlightStatus (F : Type 0) : Type 0 where
  pub observation : Observation F
  pub weather_airport : Option String

pub record Outside (F : Type 0) : Type 0 where
  pub flight_status : String → String → Option String → Option (FlightStatus F)
  pub airport_weather : String → String → Option String → Option (WeatherReport F)
  pub active_headers : Dict String
  pub writes : Bool
  pub publishes : Bool
  pub deletes : Bool
  pub waiting : List (Table (Item F) → Table (Item F))
  pub until_notified : List (Table (Item F) → Table (Item F))
  pub until_searched : List (Table (Item F) → Table (Item F))

-- The store, and the candidates whose events were published.
pub record World (F : Type 0) : Type 0 where
  pub store : Table (Item F)
  pub published : List (Candidate F)

pub data PollStatus : Type 0 where
  baseline_stored unchanged stale_observation candidate_evaluated evaluation_pending poll_failed :
      PollStatus

-- `MonitoringPollOutcome`; its observation is that of the flight with the weather beside it, and of
-- its `orchestration` the number of published events: the rest follows from the other fields.
pub record PollOutcome (F : Type 0) : Type 0 where
  pub status : PollStatus
  pub observation : Option (Observation F)
  pub weather : Option (WeatherReport F)
  pub candidate : Option (Candidate F)
  pub decision : Option (Decision F)
  pub confirmed_event : Option ConfirmedEvent
  pub notification : Option NotificationRecord
  pub search_record : Option SearchRecord
  pub error_code : Option String
  pub candidate_events_published : ℕ

-- Without the first of two prefixes, and then without the second.
abbrev without : String → String → String → String
without text first second = remove_prefix (remove_prefix text first) second

unfoldable pub event_id : String → PollRequest → String → String
event_id prefix request evidence_id = fstring (
    prefix
    ∷ "-"
    ∷ remove_prefix request.trip_id "trip-"
    ∷ "-"
    ∷ remove_prefix request.leg_id "leg-"
    ∷ "-"
    ∷ without evidence_id "obs-" "weather-"
    ∷ [])

abbrev has_three : String → Bool
has_three (String.◌∷◌ a (String.◌∷◌ b (String.◌∷◌ c String.[]))) = true
has_three _ = false

abbrev three_letters : Option String → Option String
three_letters none = none
three_letters (some code) = if has_three code then some code else none

module _ {F : Type 0} where
  -- `_weather_fields`
  unfoldable pub weather_fields : Option (WeatherReport F) → Option (WeatherReport F) → List Field
  weather_fields previous none = []
  weather_fields none (some current) = weather_risk_level ∷ weather_alerts ∷ []
  weather_fields (some previous) (some current) =
      (if str_eq previous.risk_level current.risk_level then [] else weather_risk_level ∷ [])
      ++ (if texts_eq previous.alerts current.alerts then [] else weather_alerts ∷ [])

  -- `_airport_from_flight`, with `none` for its exception.
  unfoldable pub airport_from_flight : FlightStatus F → Option String
  airport_from_flight flight = elim (three_letters flight.observation.departure_airport) [
    | some code ↦ some code
    | none ↦ three_letters flight.weather_airport
  ]

  module _ (outside : Outside F) (request : PollRequest) where
    weather_for : FlightStatus F → Option (WeatherReport F)
    weather_for flight = elim (airport_from_flight flight) [
      | none ↦ none
      | some airport ↦
          outside.airport_weather airport flight.observation.departure.scheduled_at
            request.replay_key
    ]

    unfoldable pub fetch_evidence : Fetched F
    unfolding weather_for
    fetch_evidence =
        elim (outside.flight_status request.flight_iata request.flight_date request.replay_key) [
          | none ↦ unavailable
          | some flight ↦ fetched flight.observation (weather_for flight)
        ]
