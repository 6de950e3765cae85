-- ===== src/NotificationAction.antt =====
-- flight_agent/notification_action_service.py: the one path from a confirmed event to the
-- notification tool. Here are its records and its checks.
--
-- The state is the store and the commands that the tool was given. `Outside` holds what the calls
-- out of the service return; `waiting` is what other callers do to the store between the readings
-- of the decision, and its end is the deadline.
pub mod Process
pub mod Steps
pub mod Authority
pub mod Once
pub mod Messages
use Prim.Native.Char.{code}
use flight_multi_agent.Base.{
  ℕ, String, Bool, true, false, not, ◌&&◌, ◌||◌, Option, none, some, List, [], ◌∷◌, ◌++◌, leb,
  length, if◌then◌else◌, str_eq, is_some, ◌==◌,
}
use flight_multi_agent.Base.Text.{fstring, remove_prefix, truthy}
use flight_multi_agent.Base.Table.{Table}
use flight_multi_agent.Base.Result.{Result, ok, raise, ◌>>=◌, Error, value_error, client_error}
use flight_multi_agent.Evidence.{
  Candidate, Category, unlisted, Decision, Verdict, suppress, notify, notify_and_search,
  is_suppress, is_search, category_text,
}
use flight_multi_agent.Events.{
  ConfirmedEvent, ActionStatus, SubmissionFailure, Explanation, NotificationRecord, Payload,
  confirmed_payload,
}
use flight_multi_agent.MonitoringStore.{
  Item, get_decision, get_confirmed_event, get_notification, put_notification,
}
use flight_multi_agent.MonitoringStore.Outbox.{get_candidate}
use flight_multi_agent.EventDelivery.{
  Settlement, acknowledged, redelivered, Message, Envelope, quarantine_message, retry_or_quarantine,
}
use flight_multi_agent.Wording.{ExplanationRequest, explanation_request, friendly_explanation}

abbrev pub is_listed : Category → Bool
is_listed (unlisted text) = false
is_listed _ = true

-- The fields that `ConfirmedDisruptionEvent` requires.
unfoldable pub is_valid_event : ConfirmedEvent → Bool
is_valid_event e =
    truthy e.candidate_id
    && (truthy e.decision_id
        && (truthy e.trip_id
            && (truthy e.leg_id
                && (is_listed e.category
                    && (not (is_suppress e.verdict) && leb 1 (length e.reason_codes))))))

abbrev pub same_verdict : Verdict → Verdict → Bool
same_verdict suppress suppress = true
same_verdict notify notify = true
same_verdict notify_and_search notify_and_search = true
same_verdict _ _ = false

abbrev pub same_codes : List String → List String → Bool
same_codes [] [] = true
same_codes [] (b ∷ bs) = false
same_codes (a ∷ rest_a) [] = false
same_codes (a ∷ rest_a) (b ∷ bs) = let rest = same_codes rest_a bs in str_eq a b && rest

-- `EvalApproval`
pub record EvalApproval : Type 0 where
  pub candidate_id : String
  pub decision_id : String
  pub verdict : Verdict
  pub policy_version : String
  pub reason_codes : List String
  pub decided_at : String

-- `NotificationCommand`; its channel is "sms" with an address and "push" without, and its template
-- variables are the category, the trip, the leg and the wording.
pub record NotificationCommand : Type 0 where
  pub notification_id : String
  pub idempotency_key : String
  pub trip_id : String
  pub leg_id : String
  pub recipient_ref : String
  pub recipient_address : Option String
  pub category : String
  pub wording : Explanation
  pub search_requested : Bool
  pub approval : EvalApproval

pub data ReceiptStatus : Type 0 where
  accepted delivered duplicate : ReceiptStatus

-- `NotificationReceipt`
pub record Receipt : Type 0 where
  pub provider : String
  pub provider_delivery_id : String
  pub status : ReceiptStatus
  pub delivered_at : String
  pub provider_status : Option String

-- What the tool answers: a receipt, a refused submission, or any other exception.
pub data Answer : Type 0 where
  received : Receipt → Answer
  refused : SubmissionFailure → Answer
  broken : Answer

pub record Outside (F : Type 0) : Type 0 where
  pub waiting : List (Table (Item F) → Table (Item F))
  pub is_twilio : Bool
  pub recipient : String → Option String
  pub communicator : Option (ExplanationRequest → Option Explanation)
  pub send : NotificationCommand → Answer
  pub now : String
  pub stores : Bool

pub record World (F : Type 0) : Type 0 where
  pub store : Table (Item F)
  pub sent : List NotificationCommand

abbrev pub notification_id_of : ConfirmedEvent → String
notification_id_of e = fstring ("notification-" ∷ remove_prefix e.decision_id "decision-" ∷ [])

abbrev pub idempotency_key_of : ConfirmedEvent → String
idempotency_key_of e = fstring ("notification:" ∷ e.decision_id ∷ [])

-- A record of the event's action with a status, when it was made, and an error.
abbrev pub record_of : ConfirmedEvent → ActionStatus → String → Option String → NotificationRecord
record_of e status recorded_at error_code = record {
  notification_id = notification_id_of e;
  candidate_id = e.candidate_id;
  decision_id = e.decision_id;
  trip_id = e.trip_id;
  leg_id = e.leg_id;
  verdict = e.verdict;
  status = status;
  idempotency_key = idempotency_key_of e;
  provider = none;
  provider_delivery_id = none;
  provider_status = none;
  recorded_at = recorded_at;
  delivery_updated_at = none;
  error_code = error_code;
  submission_failure = none;
  explanation = none;
}

abbrev pub action_of : ReceiptStatus → ActionStatus
action_of ReceiptStatus.accepted = ActionStatus.accepted
action_of ReceiptStatus.delivered = ActionStatus.delivered
action_of ReceiptStatus.duplicate = ActionStatus.duplicate

abbrev pub record_for : ConfirmedEvent → String → Explanation → Answer → NotificationRecord
record_for e now wording (received receipt) =
    record (record_of e (action_of receipt.status) receipt.delivered_at none) {
      provider = some receipt.provider;
      provider_delivery_id = some receipt.provider_delivery_id;
      provider_status = receipt.provider_status;
      explanation = some wording;
    }
record_for e now wording (refused failure) =
    record (record_of e ActionStatus.failed now (some failure.error_code)) {
      provider = some "twilio";
      submission_failure = some failure;
      explanation = some wording;
    }
record_for e now wording broken =
    record (record_of e ActionStatus.failed now (some "NOTIFICATION_MCP_FAILED")) {
      explanation = some wording;
    }

abbrev pub is_done : ActionStatus → Bool
is_done ActionStatus.accepted = true
is_done ActionStatus.delivered = true
is_done ActionStatus.duplicate = true
is_done _ = false

-- The characters that the pattern of `recipient_ref` admits.
unfoldable pub is_slug : String → Bool
is_slug String.[] = true
is_slug (String.◌∷◌ c s) =
    let rest = is_slug s in
    (leb 97 (code c) && leb (code c) 122 || (leb 48 (code c) && leb (code c) 57 || code c == 45))
    && rest

-- The checks of a command that its construction does not already ensure.
unfoldable pub is_valid_command : NotificationCommand → Bool
unfolding is_slug
is_valid_command c = is_slug c.trip_id && (truthy c.trip_id && truthy c.approval.policy_version)

-- `expected` against the stored event, and against the decision.
unfoldable pub event_matches : ConfirmedEvent → ConfirmedEvent → Bool
event_matches e stored =
    str_eq stored.candidate_id e.candidate_id
    && (str_eq stored.decision_id e.decision_id
        && (str_eq stored.trip_id e.trip_id
            && (str_eq stored.leg_id e.leg_id
                && (same_verdict stored.verdict e.verdict
                    && same_codes stored.reason_codes e.reason_codes))))

module _ {F : Type 0} where
  unfoldable pub decision_matches : ConfirmedEvent → Decision F → Bool
  decision_matches e d =
      str_eq d.candidate_id e.candidate_id
      && (str_eq d.decision_id e.decision_id
          && (str_eq d.trip_id e.trip_id
              && (str_eq d.leg_id e.leg_id
                  && (same_verdict d.verdict e.verdict
                      && same_codes d.reason_codes e.reason_codes))))

  abbrev both_stored : ConfirmedEvent → Table (Item F) → Bool
  both_stored e table =
      is_some (get_decision table e.candidate_id)
      && is_some (get_confirmed_event table e.candidate_id)

  -- The store at the last reading: when both are there, or at the deadline.
  unfoldable pub wait_for_commit :
      ConfirmedEvent → List (Table (Item F) → Table (Item F)) → Table (Item F) → Table (Item F)
  wait_for_commit e [] table = table
  wait_for_commit e (other ∷ others) table =
      let later = wait_for_commit e others (other table) in
      if both_stored e table then table else later

  unfoldable pub verified_decision : ConfirmedEvent → Table (Item F) → Option (Decision F)
  verified_decision e table = elim (get_decision table e.candidate_id) [
    | none ↦ none
    | some d ↦ elim (get_confirmed_event table e.candidate_id) [
      | none ↦ none
      | some stored ↦
          if decision_matches e d && (event_matches e stored && not (is_suppress d.verdict))
          then some d
          else none
    ]
  ]

  abbrev pub command_of :
      ConfirmedEvent → Decision F → Option String → Explanation → NotificationCommand
  command_of e d address wording = record {
    notification_id = notification_id_of e;
    idempotency_key = idempotency_key_of e;
    trip_id = e.trip_id;
    leg_id = e.leg_id;
    recipient_ref = fstring ("traveler:" ∷ e.trip_id ∷ []);
    recipient_address = address;
    category = category_text e.category;
    wording = wording;
    search_requested = is_search e.verdict;
    approval = record {
      candidate_id = e.candidate_id;
      decision_id = e.decision_id;
      verdict = e.verdict;
      policy_version = d.policy_version;
      reason_codes = e.reason_codes;
      decided_at = d.decided_at;
    };
  }
