-- ===== src/Examples/Sample.antt =====
-- The parameters at concrete values: timestamps are plain numerals of microseconds, and floats are
-- numbers of ten-thousandths.
use Prim.Native.Char.{code}
use flight_multi_agent.Base.{
  ℕ, ◌+◌, ◌-◌, ◌*◌, ◌/◌, String, ◌&&◌, Option, none, some, [], leb, if◌then◌else◌, min,
}
use flight_multi_agent.Base.Int.{pos}
use flight_multi_agent.Base.Decimal.{decimal}
use flight_multi_agent.Clock.{IsoFormat, DateTime}
use flight_multi_agent.Evidence.{Candidate, delay, Delta}
use flight_multi_agent.Observation.{Floats, Observation}
use flight_multi_agent.Policy.{Policy}

numeral : ℕ → String → Option ℕ
numeral n String.[] = some n
numeral n (String.◌∷◌ c s) =
    let rest = numeral (n * 10 + (code c - 48)) s in
    if leb 48 (code c) && leb (code c) 57 then rest else none

from_numeral : Option ℕ → Option DateTime
from_numeral none = none
from_numeral (some n) = some (record { local = n; utc_offset = some (pos 0) })

parse_numeral : String → Option DateTime
unfolding numeral from_numeral
parse_numeral s = from_numeral (numeral 0 s)

unfoldable pub numerals : IsoFormat
unfolding parse_numeral decimal
numerals = record { fromisoformat = parse_numeral; isoformat = decimal }

unfoldable pub scaled : Floats ℕ
scaled = record {
  ratio = λ a b. a * 10000 / b;
  add = λ a b. a + b;
  times = λ a b. a * b / 10000;
  minimum = min;
  round4 = λ a. a;
}

-- travel_eval/policies/suppression_policy.v1.json
abbrev pub policy_v1 : Policy
policy_v1 = record {
  version = "1.2.0";
  search_threshold = 90;
  notify_threshold = 30;
  cooldown_minutes = 60;
}

abbrev pub sample_delta : Delta
sample_delta = record {
  delta_id = "delta-a";
  trip_id = "trip-a";
  leg_id = "leg-1";
  previous_observation_id = "obs-1";
  current_observation_id = "obs-2";
  observed_at = "100";
  changed_fields = [];
  delay_minutes_before = 0;
  delay_minutes_after = 45;
  delay_change_minutes = pos 45;
}

-- A candidate for a delay of the given minutes.
abbrev pub delayed_by : ℕ → Candidate ℕ
delayed_by minutes = record {
  candidate_id = "cand-a";
  delta = sample_delta;
  trip_id = "trip-a";
  leg_id = "leg-1";
  observed_at = "100";
  category = delay;
  delay_minutes = some minutes;
  connection_buffer_minutes = none;
  minimum_connection_minutes = none;
  weather_risk_level = none;
  weather_evidence_status = none;
  corroborated_by_weather = none;
  confidence = 9000;
  score = 5000;
  evidence_observation_ids = [];
}

-- An observation of a flight at instant zero, late by the given timestamp.
abbrev pub seen : String → String → String → Observation ℕ
seen id at departs = record {
  observation_id = id;
  trip_id = "trip-a";
  leg_id = "leg-1";
  flight_iata = some "BA100";
  flight_date = some "2026-01-01";
  departure_airport = some "LHR";
  destination_airport = some "JFK";
  source_event_time = at;
  observed_at = at;
  status = "active";
  departure = record {
    scheduled_at = "0";
    estimated_at = some departs;
    actual_at = none;
    terminal = none;
    gate = none;
  };
  arrival = record {
    scheduled_at = "0";
    estimated_at = none;
    actual_at = none;
    terminal = none;
    gate = none;
  };
  weather = none;
  confidence = 9000;
}
