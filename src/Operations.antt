-- ===== src/Operations.antt =====
-- flight_agent/operations_service.py: the operators' view of the outbox and of the dead letters,
-- and the redrive of a dead letter.
--
-- A request is what its handler reads of it, and its answer is `Answer`: a value, or the HTTP
-- status with which it is refused. The trace is left out.
pub mod Status
pub mod Claimed
pub mod Redriven
use Prim.Native.String.{compare as compare_text}
use Prim.Native.Nat.{Ordering}
use flight_multi_agent.Base.{
  ℕ, String, Bool, true, false, not, ◌&&◌, ◌||◌, Option, none, some, List, [], ◌∷◌, ◌++◌, any,
  length, str_eq, if◌then◌else◌,
}
use flight_multi_agent.Base.Text.{fstring, truthy}
use flight_multi_agent.Base.Assoc.{Dict}
use flight_multi_agent.Base.Result.{Answer, refused, answered}
use flight_multi_agent.Base.Table.{Table}
use flight_multi_agent.Evidence.{Candidate}
use flight_multi_agent.Events.{
  ConfirmedEvent, EventType, disruption_candidate, disruption_confirmed, event_type_text, Payload,
  candidate_payload, confirmed_payload, OutboxRecord, candidate_outbox, confirmed_outbox,
}
use flight_multi_agent.NotificationAction.{is_valid_event}
use flight_multi_agent.MonitoringStore.{Item, DeadLetter, RedriveRequest}
use flight_multi_agent.MonitoringStore.Outbox.{outbox_count}
use flight_multi_agent.MonitoringStore.Outbox.DeadLetters.{
  list_dead_letters, dead_letter_count, get_dead_letter, claim_redrive, mark_dead_letter_redriven,
  finish_redrive,
}

abbrev pub eval_consumer : String
eval_consumer = "travel-eval-agent-v1"

abbrev pub notification_consumer : String
notification_consumer = "travel-notification-action-v1"

abbrev pub search_consumer : String
search_consumer = "travel-flight-search-action-v1"

abbrev pub known_consumers : List String
known_consumers = eval_consumer ∷ notification_consumer ∷ search_consumer ∷ []

-- The configured token and the one of the request, empty where it is missing; the status with
-- which the request is refused.
unfoldable pub require_operator : String → String → Option ℕ
require_operator configured supplied =
    if not (truthy configured)
    then some 503
    else if not (truthy supplied) || not (str_eq configured supplied)
    then some 401
    else none

unfoldable pub validate_consumer : String → Option ℕ
validate_consumer consumer = if any (str_eq consumer) known_consumers then none else some 404

-- `OPS_API_TOKEN`, the credential of the request, its path, and its `RedriveRequest`
pub record RedriveCall : Type 0 where
  pub configured : String
  pub supplied : String
  pub command : RedriveRequest

pub record RedriveAnswer : Type 0 where
  pub status : String
  pub event_id : String
  pub request_id : String

-- A durable event for one consumer, with the id by which the stream tells copies
pub record Publication (F : Type 0) : Type 0 where
  pub event : OutboxRecord F
  pub target_consumer : String
  pub message_id : String

-- Whether the calls of a request succeed, the time, and the headers of its trace
pub record OpsOutside : Type 0 where
  pub publishes : Bool
  pub marks : Bool
  pub finishes : Bool
  pub notes : Bool
  pub now : String
  pub trace_headers : Dict String

pub record OpsWorld (F : Type 0) : Type 0 where
  pub store : Table (Item F)
  pub published : List (Publication F)

abbrev redrive_answer : RedriveRequest → String → RedriveAnswer
redrive_answer command status = record {
  status = status;
  event_id = command.event_id;
  request_id = command.request_id;
}

module _ {F : Type 0} where
  -- `none` is any exception: the payload is not safe to publish.
  unfoldable pub record_for_redrive :
      Dict String → String → String → Option (Payload F) → Option (OutboxRecord F)
  record_for_redrive headers consumer event_id none = none
  record_for_redrive headers consumer event_id (some (candidate_payload c)) =
      let r = candidate_outbox headers c in
      if str_eq consumer eval_consumer
        && (str_eq c.candidate_id event_id
            && (truthy c.trip_id
                && (truthy c.leg_id
                    && (truthy c.observed_at
                        && str_eq r.subject "travel.disruption_candidate.v1"))))
      then some r
      else none
  record_for_redrive headers consumer event_id (some (confirmed_payload e)) =
      let r = confirmed_outbox headers e in
      if not (str_eq consumer eval_consumer)
        && (is_valid_event e
            && (str_eq e.decision_id event_id && str_eq r.subject "travel.disruption_confirmed.v1"))
      then some r
      else none

  unfoldable pub publication : OutboxRecord F → RedriveRequest → Publication F
  publication r command = record {
    event = r;
    target_consumer = command.consumer;
    message_id =
        fstring
          ("redrive:" ∷ command.consumer ∷ ":" ∷ command.event_id ∷ ":" ∷ command.request_id ∷ []);
  }

  module _ (outside : OpsOutside) (command : RedriveRequest) where
    -- The branch of the exceptions; where the failure cannot be stored, the handler raises.
    unfoldable pub note_failure : OpsWorld F → Answer RedriveAnswer × OpsWorld F
    note_failure w =
        if outside.notes
        then (
          refused 503,
          record w {
            store =
                finish_redrive w.store outside.now command.consumer command.event_id
                  command.request_id "failed" (some "REDRIVE_PUBLISH_FAILED");
          },
        )
        else (refused 500, w)

    -- After the publication
    unfoldable pub finish_publication : OpsWorld F → Answer RedriveAnswer × OpsWorld F
    finish_publication w =
        let marked =
          mark_dead_letter_redriven w.store outside.now command.consumer command.event_id
            command.request_id in
        if outside.marks
        then elim marked [
          | none ↦ note_failure w
          | some store ↦
              if outside.finishes
              then (
                answered (redrive_answer command "published"),
                record w {
                  store =
                      finish_redrive store outside.now command.consumer command.event_id
                        command.request_id "published" none;
                },
              )
              else note_failure (record w { store = store })
        ]
        else note_failure w

    unfoldable pub publish_redrive : OutboxRecord F → OpsWorld F → Answer RedriveAnswer × OpsWorld F
    publish_redrive r w =
        if outside.publishes
        then finish_publication (record w { published = publication r command ∷ w.published })
        else note_failure w

    unfoldable pub claim_and_publish :
        OutboxRecord F → OpsWorld F → Answer RedriveAnswer × OpsWorld F
    claim_and_publish r w =
        let ((claimed, claim), store) = claim_redrive w.store command in
        if claimed
        then publish_redrive r (record w { store = store })
        else (answered (redrive_answer command (fstring ("already_" ∷ claim.status ∷ []))), w)

    unfoldable pub redrive_letter : DeadLetter F → OpsWorld F → Answer RedriveAnswer × OpsWorld F
    redrive_letter letter w =
        let made =
          record_for_redrive outside.trace_headers command.consumer command.event_id
            letter.payload in
        let done : RedriveAnswer = record {
          status = "already_redriven";
          event_id = command.event_id;
          request_id = elim letter.redrive_request_id [ none ↦ "" | some id ↦ id ];
        } in
        if not (str_eq letter.status "active")
        then (answered done, w)
        else elim made [ none ↦ (refused 422, w) | some r ↦ claim_and_publish r w ]

  unfoldable pub redrive_dead_letter :
      OpsOutside → RedriveCall → OpsWorld F → Answer RedriveAnswer × OpsWorld F
  redrive_dead_letter outside call w =
      let command = call.command in
      elim (require_operator call.configured call.supplied) [
        | some status ↦ (refused status, w)
        | none ↦ elim (validate_consumer command.consumer) [
          | some status ↦ (refused status, w)
          | none ↦ elim (get_dead_letter w.store command.consumer command.event_id) [
            | none ↦ (refused 404, w)
            | some letter ↦ redrive_letter outside command letter w
          ]
        ]
      ]
