-- ===== src/MonitoringStore.antt =====
-- flight_agent/monitoring_store.py, `DynamoMonitoringStateStore`: the table that the monitoring
-- agent, the evaluation and the action services share.
--
-- An item is its payload; `Item` has a constructor for each kind of item that the store writes. A
-- read of another kind than the one written is `none`. `dumps` is `json.dumps` with sorted keys,
-- through which a conditional update compares payloads.
pub mod Outbox
pub mod Laws
use flight_multi_agent.Base.{
  ℕ, String, Bool, true, false, Option, none, some, List, [], ◌∷◌, ◌++◌, if◌then◌else◌, str_eq,
}
use flight_multi_agent.Base.Text.{fstring, truthy}
use flight_multi_agent.Base.Table.{Key, Table, get_item, put_item}
use flight_multi_agent.Evidence.{Candidate, Decision}
use flight_multi_agent.Observation.{Observation}
use flight_multi_agent.Offers.{SearchRecord}
use flight_multi_agent.Events.{
  Payload, ConfirmedEvent, EventType, event_type_text, OutboxRecord, NotificationRecord,
}

-- The weather fields that the monitoring agent reads.
pub record WeatherReport (F : Type 0) : Type 0 where
  pub observation_id : String
  pub observed_at : String
  pub risk_level : String
  pub alerts : List String
  pub confidence : F

-- A dead letter with its audit fields.
pub record DeadLetter (F : Type 0) : Type 0 where
  pub payload : Option (Payload F)
  pub error_code : String
  pub attempts : ℕ
  pub status : String
  pub recorded_at : String
  pub redrive_request_id : Option String
  pub redriven_at : Option String

-- What a claim of a redrive records.
pub record RedriveRequest : Type 0 where
  pub consumer : String
  pub event_id : String
  pub request_id : String
  pub operator_ref : String
  pub reason : String
  pub requested_at : String

-- An item of a redrive; a finish that finds none leaves one without a request.
pub record Redrive : Type 0 where
  pub request : Option RedriveRequest
  pub status : String
  pub finished_at : Option String
  pub error_code : Option String

-- An item of the outbox; a failure that is noted for a missing item leaves one without a payload.
pub record OutboxItem (F : Type 0) : Type 0 where
  pub payload : Option (OutboxRecord F)
  pub publish_attempts : ℕ
  pub last_attempt_at : Option String

pub data Item (F : Type 0) : Type 0 where
  observation : Observation F → Item F
  weather : WeatherReport F → Item F
  candidate : Candidate F → Item F
  decision : Decision F → Item F
  advisory : String → Item F
  confirmed : ConfirmedEvent → Item F
  notification : NotificationRecord → Item F
  delivery_index : String → Item F
  band : ℕ → Item F
  outbox : OutboxItem F → Item F
  dead_letter : DeadLetter F → Item F
  redrive : Redrive → Item F
  flight_search : SearchRecord → Item F

abbrev pub leg_partition : String → String → String
leg_partition trip_id leg_id = fstring ("TRIP#" ∷ trip_id ∷ "#LEG#" ∷ leg_id ∷ [])

abbrev pub candidate_partition : String → String
candidate_partition candidate_id = fstring ("CANDIDATE#" ∷ candidate_id ∷ [])

abbrev pub decision_partition : String → String
decision_partition decision_id = fstring ("DECISION#" ∷ decision_id ∷ [])

abbrev pub notification_key : String → Key
notification_key decision_id = record { pk = decision_partition decision_id; sk = "NOTIFICATION" }

abbrev pub search_key : String → Key
search_key decision_id = record { pk = decision_partition decision_id; sk = "SEARCH" }

abbrev pub observation_key : String → String → Key
observation_key trip_id leg_id = record {
  pk = leg_partition trip_id leg_id;
  sk = "LAST_OBSERVATION";
}

abbrev pub weather_key : String → String → Key
weather_key trip_id leg_id = record { pk = leg_partition trip_id leg_id; sk = "LAST_WEATHER" }

abbrev pub decision_key : String → Key
decision_key candidate_id = record { pk = candidate_partition candidate_id; sk = "DECISION" }

abbrev pub confirmed_key : String → Key
confirmed_key candidate_id = record {
  pk = candidate_partition candidate_id;
  sk = "CONFIRMED_EVENT";
}

abbrev pub band_key : String → Key
band_key episode = record { pk = fstring ("POLICY#" ∷ episode ∷ []); sk = "HIGHEST_NOTIFIED_BAND" }

abbrev pub index_key : String → String → Key
index_key provider delivery_id = record {
  pk = fstring ("PROVIDER#" ∷ provider ∷ []);
  sk = fstring ("DELIVERY#" ∷ delivery_id ∷ []);
}

abbrev pub outbox_key : String → String → Key
outbox_key event_type event_id = record {
  pk = fstring ("OUTBOX#" ∷ event_type ∷ []);
  sk = fstring ("EVENT#" ∷ event_id ∷ []);
}

abbrev pub advisory_key : String → Key
advisory_key candidate_id = record { pk = candidate_partition candidate_id; sk = "EVAL_ADVISORY" }

module _ {F : Type 0} where
  abbrev as_observation : Option (Item F) → Option (Observation F)
  as_observation (some (observation o)) = some o
  as_observation _ = none

  abbrev as_weather : Option (Item F) → Option (WeatherReport F)
  as_weather (some (weather w)) = some w
  as_weather _ = none

  abbrev pub as_candidate : Option (Item F) → Option (Candidate F)
  as_candidate (some (candidate c)) = some c
  as_candidate _ = none

  abbrev as_decision : Option (Item F) → Option (Decision F)
  as_decision (some (decision d)) = some d
  as_decision _ = none

  abbrev as_advisory : Option (Item F) → Option String
  as_advisory (some (advisory a)) = some a
  as_advisory _ = none

  abbrev pub as_confirmed : Option (Item F) → Option ConfirmedEvent
  as_confirmed (some (confirmed e)) = some e
  as_confirmed _ = none

  abbrev as_notification : Option (Item F) → Option NotificationRecord
  as_notification (some (notification n)) = some n
  as_notification _ = none

  abbrev as_search : Option (Item F) → Option SearchRecord
  as_search (some (flight_search r)) = some r
  as_search _ = none

  abbrev as_index : Option (Item F) → Option String
  as_index (some (delivery_index d)) = some d
  as_index _ = none

  abbrev pub as_band : Option (Item F) → Option ℕ
  as_band (some (band b)) = some b
  as_band _ = none

module _ {F : Type 0} (table : Table (Item F)) where
  unfoldable pub get_last_observation : String → String → Option (Observation F)
  get_last_observation trip_id leg_id =
      as_observation (get_item (observation_key trip_id leg_id) table)

  unfoldable pub put_last_observation : String → String → Observation F → Table (Item F)
  put_last_observation trip_id leg_id o =
      put_item (observation_key trip_id leg_id) (observation o) table

  unfoldable pub get_last_weather : String → String → Option (WeatherReport F)
  get_last_weather trip_id leg_id = as_weather (get_item (weather_key trip_id leg_id) table)

  unfoldable pub put_last_weather : String → String → WeatherReport F → Table (Item F)
  put_last_weather trip_id leg_id w = put_item (weather_key trip_id leg_id) (weather w) table

  unfoldable pub get_search : String → Option SearchRecord
  get_search decision_id = as_search (get_item (search_key decision_id) table)

  unfoldable pub put_search : String → SearchRecord → Table (Item F)
  put_search decision_id r = put_item (search_key decision_id) (flight_search r) table

  unfoldable pub get_decision : String → Option (Decision F)
  get_decision candidate_id = as_decision (get_item (decision_key candidate_id) table)

  unfoldable pub put_decision : String → Decision F → Table (Item F)
  put_decision candidate_id d = put_item (decision_key candidate_id) (decision d) table

  unfoldable pub get_confirmed_event : String → Option ConfirmedEvent
  get_confirmed_event candidate_id = as_confirmed (get_item (confirmed_key candidate_id) table)

  unfoldable pub put_confirmed_event : String → ConfirmedEvent → Table (Item F)
  put_confirmed_event candidate_id e = put_item (confirmed_key candidate_id) (confirmed e) table

  unfoldable pub get_eval_advisory : String → Option String
  get_eval_advisory candidate_id = as_advisory (get_item (advisory_key candidate_id) table)

  unfoldable pub put_eval_advisory : String → String → Table (Item F)
  put_eval_advisory candidate_id text = put_item (advisory_key candidate_id) (advisory text) table

  unfoldable pub get_policy_band : String → Option ℕ
  get_policy_band episode = as_band (get_item (band_key episode) table)

  unfoldable pub put_policy_band : String → ℕ → Table (Item F)
  put_policy_band episode value = put_item (band_key episode) (band value) table

  unfoldable pub get_notification : String → Option NotificationRecord
  get_notification decision_id = as_notification (get_item (notification_key decision_id) table)

  -- Two puts in one transaction where the record names a provider's delivery.
  unfoldable pub put_notification : String → NotificationRecord → Table (Item F)
  put_notification decision_id n =
      let written = put_item (notification_key decision_id) (notification n) table in
      let indexed : String → String → Table (Item F) = λ provider delivery.
        put_item (index_key provider delivery) (delivery_index decision_id) written in
      elim n.provider [
        | none ↦ written
        | some provider ↦ elim n.provider_delivery_id [
          | none ↦ written
          | some delivery ↦ indexed provider delivery
        ]
      ]

  -- The decision id and the record that a provider's delivery belongs to.
  unfoldable pub get_notification_by_provider_delivery :
      String → String → Option (String × NotificationRecord)
  get_notification_by_provider_delivery provider delivery_id =
      elim (as_index (get_item (index_key provider delivery_id) table)) [
        | none ↦ none
        | some decision_id ↦ elim (get_notification decision_id) [
          | none ↦ none
          | some n ↦ some (decision_id, n)
        ]
      ]

  -- The update is made, and `true` returned, only if the stored payload is the expected text.
  unfoldable pub compare_and_set_notification :
      (NotificationRecord → String)
      → String
      → NotificationRecord
      → NotificationRecord
      → Bool × Table (Item F)
  compare_and_set_notification dumps decision_id expected replacement =
      elim (get_notification decision_id) [
        | none ↦ (false, table)
        | some stored ↦
            if str_eq (dumps stored) (dumps expected)
            then (true, put_item (notification_key decision_id) (notification replacement) table)
            else (false, table)
      ]
