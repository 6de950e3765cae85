-- ===== src/Replay.antt =====
-- travel_eval/engine.py, `ReplayEngine`: a scenario's observations are replayed in the order of
-- their arrival, compared with the last state of their leg, and judged by the policy.
--
-- The scenario is given by its expanded observations. An exception ends the run, whose results are
-- lost with it.
mod Induction
pub mod Keys
pub mod Authority
pub mod NoDuplicates
use flight_multi_agent.Base.{
  ℕ, suc, ◌+◌, String, Bool, true, false, not, Option, none, some, List, [], ◌∷◌, ◌++◌, leb, ltb,
  get_or, if◌then◌else◌,
}
use flight_multi_agent.Base.Int.{ℤ, pos, ◌-ℤ◌}
use flight_multi_agent.Base.Text.{fstring}
use flight_multi_agent.Base.Decimal.{decimal, decimal3}
use flight_multi_agent.Base.Assoc.{Dict, lookup, insert}
use flight_multi_agent.Base.Result.{Result, ok, raise, ◌>>=◌}
use flight_multi_agent.Clock.{
  IsoFormat, VirtualClock, new_clock, advance_to, now, parse_timestamp, format_timestamp,
}
use flight_multi_agent.Evidence.{
  Field, Candidate, Decision, Delta, Category, is_suppress, is_search, category_text,
}
use flight_multi_agent.Observation.{
  Observation, Floats, effective_time, minutes_between, operational_delay, changed_fields,
  classify_candidate, candidate_score,
}
use flight_multi_agent.Policy.{
  Policy, PolicyState, no_history, evaluate, severity_band, episode_key,
}

pub record Envelope (F : Type 0) : Type 0 where
  pub received_at : String
  pub observation : Observation F

pub record Connection : Type 0 where
  pub next_departure_at : String
  pub minimum_connection_minutes : ℤ

pub record Scenario (F : Type 0) : Type 0 where
  pub scenario_id : String
  pub observations : List (Envelope F)
  pub connection_context : Dict Connection

pub record Notification : Type 0 where
  pub notification_id : String
  pub decision_id : String
  pub trip_id : String
  pub leg_id : String
  pub created_at : String
  pub channel : String
  pub template : String
  pub reason_codes : List String
  pub search_requested : Bool
  pub idempotency_key : String

-- `ReplayResult`
pub record ReplayResult (F : Type 0) : Type 0 where
  pub candidates : List (Candidate F)
  pub decisions : List (Decision F)
  pub notifications : List Notification
  pub ignored_observation_ids : List String

-- The local variables of `run`, with its result.
pub record Run (F : Type 0) : Type 0 where
  pub result : ReplayResult F
  pub clock : VirtualClock
  pub policy_state : PolicyState
  pub last_state : Dict (Observation F)
  pub last_source_event : Dict ℕ
  pub sequence : ℕ

-- `leg_id in last_source_event and source_time <= last_source_event[leg_id]`
abbrev pub is_stale : ℕ → Option ℕ → Bool
is_stale source_time none = false
is_stale source_time (some last) = leb source_time last

module _ {F : Type 0} where
  -- `observation.get("weather", {}).get("risk_level", "none")`
  abbrev pub risk_of : Observation F → String
  risk_of observation = elim observation.weather [
    | none ↦ "none"
    | some weather ↦ get_or weather.risk_level "none"
  ]

  abbrev pub new_run : Run F
  new_run = record {
    result = record {
      candidates = [];
      decisions = [];
      notifications = [];
      ignored_observation_ids = [];
    };
    clock = new_clock;
    policy_state = no_history;
    last_state = [];
    last_source_event = [];
    sequence = 0;
  }

  ignore : Run F → VirtualClock → Observation F → Run F
  ignore run clock observation = record run {
    clock = clock;
    result = record run.result {
      ignored_observation_ids =
          run.result.ignored_observation_ids ++ observation.observation_id ∷ [];
    };
  }

  keep : Run F → VirtualClock → Observation F → ℕ → Run F
  keep run clock observation source_time = record run {
    clock = clock;
    last_state = insert observation.leg_id observation run.last_state;
    last_source_event = insert observation.leg_id source_time run.last_source_event;
  }

  -- `sorted` is stable: the rest is sorted first, and equal keys keep their order.
  place : ℕ → Envelope F → List (ℕ × Envelope F) → List (ℕ × Envelope F)
  place at envelope [] = (at, envelope) ∷ []
  place at envelope ((other, e) ∷ rest) =
      let later = place at envelope rest in
      if leb at other then (at, envelope) ∷ (other, e) ∷ rest else (other, e) ∷ later

  unfoldable pub notification_for : String → ℕ → Candidate F → Decision F → Notification
  notification_for scenario_id sequence candidate decision = record {
    notification_id = fstring ("notification-" ∷ scenario_id ∷ "-" ∷ decimal3 sequence ∷ []);
    decision_id = decision.decision_id;
    trip_id = candidate.trip_id;
    leg_id = candidate.leg_id;
    created_at = decision.decided_at;
    channel = "push";
    template = "travel_disruption_v1";
    reason_codes = decision.reason_codes;
    search_requested = is_search decision.verdict;
    idempotency_key = fstring (
        candidate.trip_id
        ∷ ":"
        ∷ candidate.leg_id
        ∷ ":"
        ∷ category_text candidate.category
        ∷ ":"
        ∷ decimal (severity_band candidate)
        ∷ []);
  }

module _ {F : Type 0} (iso : IsoFormat) where
  sort_by_arrival : List (Envelope F) → Result (List (ℕ × Envelope F))
  unfolding place
  sort_by_arrival [] = ok []
  sort_by_arrival (envelope ∷ rest) = do
    at ← parse_timestamp iso envelope.received_at
    sorted ← sort_by_arrival rest
    ok (place at envelope sorted)

  -- The buffer and the minimum of the leg's connection, if the scenario names one.
  connection_of : Option Connection → Observation F → Result (Option ℤ × Option ℤ)
  connection_of none observation = ok (none, none)
  connection_of (some connection) observation = do
    buffer ← minutes_between iso (effective_time observation.arrival) connection.next_departure_at
    ok (some buffer, some connection.minimum_connection_minutes)

module _ {F : Type 0} (iso : IsoFormat) (floats : Floats F) (policy : Policy)
    (scenario : Scenario F) where
  -- The candidate of a changed observation; `sequence` has been counted up.
  build_candidate :
      ℕ → VirtualClock → Observation F → Observation F → List Field → Result (Candidate F)
  unfolding connection_of now ◌-ℤ◌
  build_candidate sequence clock previous observation fields = do
    before_delay ← operational_delay iso previous
    after_delay ← operational_delay iso observation
    connection ←
        connection_of iso (lookup observation.leg_id scenario.connection_context) observation
    category ← classify_candidate iso observation fields connection.0 connection.1
    shown ← now clock
    score ← candidate_score floats category after_delay observation.confidence
    let observed_at = format_timestamp iso shown
    let tail = fstring (scenario.scenario_id ∷ "-" ∷ decimal3 sequence ∷ [])
    ok (record {
      candidate_id = fstring ("cand-" ∷ tail ∷ []);
      delta = record {
        delta_id = fstring ("delta-" ∷ tail ∷ []);
        trip_id = observation.trip_id;
        leg_id = observation.leg_id;
        previous_observation_id = previous.observation_id;
        current_observation_id = observation.observation_id;
        observed_at = observed_at;
        changed_fields = fields;
        delay_minutes_before = before_delay;
        delay_minutes_after = after_delay;
        delay_change_minutes = pos after_delay -ℤ pos before_delay;
      };
      trip_id = observation.trip_id;
      leg_id = observation.leg_id;
      observed_at = observed_at;
      category = category;
      delay_minutes = some after_delay;
      connection_buffer_minutes = connection.0;
      minimum_connection_minutes = connection.1;
      weather_risk_level = some (risk_of observation);
      weather_evidence_status = none;
      corroborated_by_weather = none;
      confidence = observation.confidence;
      score = score;
      evidence_observation_ids = previous.observation_id ∷ observation.observation_id ∷ [];
    })

  -- The decision on a candidate, and the notification if it is not suppressed.
  judge : Run F → Candidate F → Result (Run F)
  judge run candidate =
      let id = fstring ("decision-" ∷ scenario.scenario_id ∷ "-" ∷ decimal3 run.sequence ∷ []) in
      let (outcome, history) = evaluate iso policy candidate run.policy_state id in
      do
        decision ← outcome
        let sent = notification_for scenario.scenario_id run.sequence candidate decision
        let notifications =
            if is_suppress decision.verdict
            then run.result.notifications
            else run.result.notifications ++ sent ∷ []
        ok (record run {
          policy_state = history;
          result = record {
            candidates = run.result.candidates ++ candidate ∷ [];
            decisions = run.result.decisions ++ decision ∷ [];
            notifications = notifications;
            ignored_observation_ids = run.result.ignored_observation_ids;
          };
        })

  pub compare_with : Run F → Observation F → Observation F → List Field → Result (Run F)
  unfolding build_candidate judge
  compare_with run previous observation [] = ok run
  compare_with run previous observation (field ∷ fields) = do
    let counted = record run { sequence = run.sequence + 1 }
    candidate ← build_candidate counted.sequence counted.clock previous observation (field ∷ fields)
    judge counted candidate

  -- A stale observation is ignored; the first of a leg is its baseline; a later one is compared.
  turn : Bool → Option (Observation F) → Run F → Run F → Observation F → Result (Run F)
  unfolding compare_with changed_fields
  turn true previous ignored kept observation = ok ignored
  turn false none ignored kept observation = ok kept
  turn false (some previous) ignored kept observation =
      compare_with kept previous observation (changed_fields previous observation)

  -- One turn of the loop of `run`.
  replay_step : Run F → Envelope F → Result (Run F)
  unfolding turn ignore keep advance_to
  replay_step run envelope =
      let (moved, clock) = advance_to iso run.clock envelope.received_at in
      let observation = envelope.observation in
      let leg_id = observation.leg_id in
      do
        target ← moved
        source_time ← parse_timestamp iso observation.source_event_time
        let stale = is_stale source_time (lookup leg_id run.last_source_event)
        turn stale (lookup leg_id run.last_state) (ignore run clock observation)
            (keep run clock observation source_time) observation

  replay_all : Run F → List (ℕ × Envelope F) → Result (Run F)
  unfolding replay_step
  replay_all run [] = ok run
  replay_all run ((at, envelope) ∷ rest) = do next ← replay_step run envelope; replay_all next rest

  -- `ReplayEngine.run`
  unfoldable pub replay : Result (ReplayResult F)
  unfolding replay_all sort_by_arrival
  replay = do
    sorted ← sort_by_arrival iso scenario.observations
    last ← replay_all new_run sorted
    ok last.result
