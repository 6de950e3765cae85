-- ===== src/Examples/Actions.antt =====
-- The confirmed event of the late flight, before the notification action service.
use flight_multi_agent.Base.{
  ℕ, ◌≡◌, ◌⊎◌, refl, String, true, false, Option, none, some, [], ◌∷◌, ◌++◌, arith,
}
use flight_multi_agent.Base.Assoc.{lookup, insert}
use flight_multi_agent.Base.Decimal.{decimal}
use flight_multi_agent.Base.Text.{remove_prefix}
use flight_multi_agent.Base.Table.{Table, get_item, put_item}
use flight_multi_agent.Base.Result.{ok, raise, value_error}
use flight_multi_agent.Clock.{parse_timestamp, format_timestamp, plus}
use flight_multi_agent.Evidence.{Decision}
use flight_multi_agent.Policy.{evaluate, episode_key, severity_band}
use flight_multi_agent.Events.{
  ConfirmedEvent, NotificationRecord, Explanation, confirmed_payload, confirmed_outbox,
  outbox_record,
}
use flight_multi_agent.MonitoringStore.{
  Item, get_decision, get_policy_band, get_confirmed_event, get_notification, put_notification,
  put_decision, put_confirmed_event,
}
use flight_multi_agent.MonitoringStore.Outbox.{
  get_candidate, put_candidate, commit_evaluation_with_outbox,
}
use flight_multi_agent.EventDelivery.{Message, acknowledged}
use flight_multi_agent.EvalService.{
  event_for, process_candidate_message, process_candidate, evaluate_candidate, fresh_evaluation,
  commit_evaluation,
}
use flight_multi_agent.Wording.{
  explanation_request, is_acceptable, friendly_explanation, deterministic_explanation,
}
use flight_multi_agent.NotificationAction.{
  Outside, World, received, broken, ReceiptStatus, is_done, command_of, record_for,
  verified_decision, wait_for_commit, decision_matches, event_matches, is_valid_event,
  is_valid_command,
}
use flight_multi_agent.NotificationAction.Process.{
  process_confirmed_event, process_confirmed_message, act, act_on, notify_traveler, submit, save,
  settle,
}
use flight_multi_agent.NotificationAction.Steps.{checked}
use flight_multi_agent.NotificationAction.Authority.{IsBacked, process-IsBacked}
use flight_multi_agent.NotificationAction.Once.{process-once}
use flight_multi_agent.NotificationAction.Messages.{acknowledged-notified, process-too_long}
use flight_multi_agent.Pipeline.Handover.{verified-published}
use flight_multi_agent.Examples.Sample.{numerals, policy_v1, delayed_by}
use flight_multi_agent.Examples.Evaluations.{
  late_candidate, silent, reachable, candidate_message, deliver_to, undecided, acks_late, decided,
  decides, notifies,
}

verified-published_example :
    verified_decision (event_for late_candidate decided) (deliver_to []).1 ≡ some decided
verified-published_example =
    verified-published numerals policy_v1 silent [] reachable 5 "t" candidate_message [] _
      late_candidate refl refl undecided acks_late decided decides notifies

abbrev event : ConfirmedEvent
event = event_for late_candidate decided

-- The tool accepts every command.
abbrev push_service : Outside ℕ
push_service = record {
  waiting = [];
  is_twilio = false;
  recipient = λ trip. none;
  communicator = none;
  send = λ command. received (record {
    provider = "recording";
    provider_delivery_id = "delivery-1";
    status = ReceiptStatus.accepted;
    delivered_at = "t1";
    provider_status = none;
  });
  now = "t";
  stores = true;
}

abbrev broken_service : Outside ℕ
broken_service = record push_service { send = λ command. broken }

-- The store with the decision, the event and a candidate that is late by so many minutes.
abbrev decided_store : ℕ → Table (Item ℕ)
decided_store minutes =
    put_candidate (put_confirmed_event (put_decision [] "cand-a" decided) "cand-a" event)
      (delayed_by minutes)

abbrev world : ℕ → World ℕ
world minutes = record { store = decided_store minutes; sent = [] }

abbrev plain : Explanation
plain = record {
  message = "Your flight is now delayed by 45 minutes.";
  status = "fallback";
  source = "deterministic";
  model = none;
  prompt_version = "disruption-explanation-v1";
  error_code = none;
}

abbrev reply : NotificationRecord
reply = record_for event "t" plain (push_service.send (command_of event decided none plain))

replies : (process_confirmed_event push_service event (world 45)).0 ≡ ok reply
unfolding process_confirmed_event act act_on notify_traveler submit save verified_decision
    wait_for_commit decision_matches event_matches is_valid_event is_valid_command get_notification
    put_notification get_decision get_confirmed_event get_candidate put_candidate put_decision
    put_confirmed_event get_item put_item explanation_request is_acceptable friendly_explanation
    deterministic_explanation remove_prefix decimal process_candidate_message process_candidate
    evaluate_candidate fresh_evaluation evaluate episode_key severity_band lookup insert
    parse_timestamp format_timestamp plus numerals get_policy_band commit_evaluation
    commit_evaluation_with_outbox confirmed_outbox outbox_record
replies = refl

-- The same event again, when the tool has stopped working.
process-once_example :
    let after = (process_confirmed_event push_service event (world 45)).1 in
    process_confirmed_event broken_service event after ≡ (ok reply, after)
process-once_example = process-once push_service broken_service event (world 45) reply replies refl

process-IsBacked_example :
    ((process_confirmed_event push_service event (world 45)).1.sent ≡ [])
    ⊎ ((d : Decision ℕ) × IsBacked event d (checked push_service event (world 45)).store
        × ((address : Option String) × (wording : Explanation) × ((process_confirmed_event
                push_service event
                (world 45)).1.sent
              ≡ [] ++ command_of event d address wording ∷ [])))
process-IsBacked_example = process-IsBacked push_service event (world 45)

abbrev event_message : Message ℕ
event_message = record {
  envelope =
      some (record {
        event_id = "decision-a";
        occurred_at = "100";
        payload = confirmed_payload event;
      });
  fallback = "unreadable-0";
  num_delivered = some 1;
}

acks_event :
    (process_confirmed_message push_service true 5 event_message (world 45)).0 ≡ acknowledged
unfolding process_confirmed_message settle process_confirmed_event act act_on notify_traveler submit
    save verified_decision wait_for_commit decision_matches event_matches is_valid_event
    is_valid_command get_notification put_notification get_decision get_confirmed_event
    get_candidate put_candidate put_decision put_confirmed_event get_item put_item
    explanation_request is_acceptable friendly_explanation deterministic_explanation remove_prefix
    decimal process_candidate_message process_candidate evaluate_candidate fresh_evaluation evaluate
    episode_key severity_band lookup insert parse_timestamp format_timestamp plus numerals
    get_policy_band commit_evaluation commit_evaluation_with_outbox confirmed_outbox outbox_record
acks_event = refl

acknowledged-notified_example :
    (r : NotificationRecord) × (get_notification
        (process_confirmed_message push_service true 5 event_message (world 45)).1.store
        event.decision_id
      ≡ some r)
    × (is_done r.status ≡ true)
acknowledged-notified_example =
    acknowledged-notified push_service true 5 event_message (world 45) _ event refl refl acks_event

is_valid : is_valid_event event ≡ true
unfolding is_valid_event process_candidate_message process_candidate evaluate_candidate
    fresh_evaluation evaluate episode_key severity_band lookup insert parse_timestamp
    format_timestamp plus numerals get_policy_band commit_evaluation commit_evaluation_with_outbox
    confirmed_outbox outbox_record get_item get_decision remove_prefix put_item
is_valid = refl

is_new : get_notification (world 4000).store event.decision_id ≡ none
unfolding process_confirmed_event act act_on notify_traveler submit save verified_decision
    wait_for_commit decision_matches event_matches is_valid_event is_valid_command get_notification
    put_notification get_decision get_confirmed_event get_candidate put_candidate put_decision
    put_confirmed_event get_item put_item explanation_request is_acceptable friendly_explanation
    deterministic_explanation remove_prefix decimal process_candidate_message process_candidate
    evaluate_candidate fresh_evaluation evaluate episode_key severity_band lookup insert
    parse_timestamp format_timestamp plus numerals get_policy_band commit_evaluation
    commit_evaluation_with_outbox confirmed_outbox outbox_record
is_new = refl

is_verified : verified_decision event (checked push_service event (world 4000)).store ≡ some decided
unfolding process_confirmed_event act act_on notify_traveler submit save verified_decision
    wait_for_commit decision_matches event_matches is_valid_event is_valid_command get_notification
    put_notification get_decision get_confirmed_event get_candidate put_candidate put_decision
    put_confirmed_event get_item put_item explanation_request is_acceptable friendly_explanation
    deterministic_explanation remove_prefix decimal process_candidate_message process_candidate
    evaluate_candidate fresh_evaluation evaluate episode_key severity_band lookup insert
    parse_timestamp format_timestamp plus numerals get_policy_band commit_evaluation
    commit_evaluation_with_outbox confirmed_outbox outbox_record
is_verified = refl

has_candidate :
    get_candidate (checked push_service event (world 4000)).store event.candidate_id
    ≡ some (delayed_by 4000)
unfolding process_confirmed_event act act_on notify_traveler submit save verified_decision
    wait_for_commit decision_matches event_matches is_valid_event is_valid_command get_notification
    put_notification get_decision get_confirmed_event get_candidate put_candidate put_decision
    put_confirmed_event get_item put_item explanation_request is_acceptable friendly_explanation
    deterministic_explanation remove_prefix decimal process_candidate_message process_candidate
    evaluate_candidate fresh_evaluation evaluate episode_key severity_band lookup insert
    parse_timestamp format_timestamp plus numerals get_policy_band commit_evaluation
    commit_evaluation_with_outbox confirmed_outbox outbox_record
has_candidate = refl

process-too_long_example :
    process_confirmed_event push_service event (world 4000)
    ≡ (raise value_error, checked push_service event (world 4000))
process-too_long_example =
    process-too_long push_service event (world 4000) decided (delayed_by 4000) 4000 is_valid is_new
      is_verified has_candidate refl (omega arith) refl
