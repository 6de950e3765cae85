-- ===== src/Events.antt =====
-- The records that pass through the event bus and the monitoring store after an evaluation
-- (flight_agent/notification_contracts.py, eval_service.py, event_delivery.py).
use flight_multi_agent.Base.{ℕ, String, Bool, Option, List}
use flight_multi_agent.Base.Assoc.{Dict}
use flight_multi_agent.Evidence.{Candidate, Category, Verdict}

-- The event that the evaluation publishes for a decision that does not suppress; its `event_type`
-- is the constant "disruption_confirmed".
pub record ConfirmedEvent : Type 0 where
  pub candidate_id : String
  pub decision_id : String
  pub trip_id : String
  pub leg_id : String
  pub category : Category
  pub verdict : Verdict
  pub reason_codes : List String
  pub published_at : String

pub data EventType : Type 0 where
  disruption_candidate disruption_confirmed : EventType

abbrev pub event_type_text : EventType → String
event_type_text disruption_candidate = "disruption_candidate"
event_type_text disruption_confirmed = "disruption_confirmed"

pub data Payload (F : Type 0) : Type 0 where
  candidate_payload : Candidate F → Payload F
  confirmed_payload : ConfirmedEvent → Payload F

-- A record of the outbox; empty `trace_headers` are a missing key.
pub record OutboxRecord (F : Type 0) : Type 0 where
  pub event_id : String
  pub event_type : EventType
  pub subject : String
  pub occurred_at : String
  pub payload : Payload F
  pub producer_service : String
  pub trace_headers : Dict String

module _ {F : Type 0} where
  unfoldable pub outbox_record :
      Dict String → String → EventType → String → String → Payload F → String → OutboxRecord F
  outbox_record active_headers event_id event_type subject occurred_at payload producer_service =
      record {
        event_id = event_id;
        event_type = event_type;
        subject = subject;
        occurred_at = occurred_at;
        payload = payload;
        producer_service = producer_service;
        trace_headers = active_headers;
      }

  unfoldable pub candidate_outbox : Dict String → Candidate F → OutboxRecord F
  unfolding outbox_record
  candidate_outbox active_headers c =
      outbox_record active_headers c.candidate_id disruption_candidate
        "travel.disruption_candidate.v1" c.observed_at (candidate_payload c) "monitor-agent"

  unfoldable pub confirmed_outbox : Dict String → ConfirmedEvent → OutboxRecord F
  unfolding outbox_record
  confirmed_outbox active_headers e =
      outbox_record active_headers e.decision_id disruption_confirmed
        "travel.disruption_confirmed.v1" e.published_at (confirmed_payload e) "eval-agent"

-- `NotificationActionRecord.status`
pub data ActionStatus : Type 0 where
  accepted delivered duplicate failed rejected : ActionStatus

-- `NotificationSubmissionFailure`; its `status` and `provider` are constants.
pub record SubmissionFailure : Type 0 where
  pub error_code : String
  pub retryable : Bool
  pub http_status : Option ℕ
  pub remediation : String

-- The fields that a `DisruptionExplanation` leaves in a notification record.
pub record Explanation : Type 0 where
  pub message : String
  pub status : String
  pub source : String
  pub model : Option String
  pub prompt_version : String
  pub error_code : Option String

-- `NotificationActionRecord`; the six fields of the explanation are one.
pub record NotificationRecord : Type 0 where
  pub notification_id : String
  pub candidate_id : String
  pub decision_id : String
  pub trip_id : String
  pub leg_id : String
  pub verdict : Verdict
  pub status : ActionStatus
  pub idempotency_key : String
  pub provider : Option String
  pub provider_delivery_id : Option String
  pub provider_status : Option String
  pub recorded_at : String
  pub delivery_updated_at : Option String
  pub error_code : Option String
  pub submission_failure : Option SubmissionFailure
  pub explanation : Option Explanation
