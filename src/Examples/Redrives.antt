-- ===== src/Examples/Redrives.antt =====
-- Two operators who redrive one dead letter with the same request.
use flight_multi_agent.Base.{ℕ, ◌≡◌, ◌≤◌, refl, String, true, false, none, some, [], ◌∷◌, length}
use flight_multi_agent.Base.Table.{Table, get_item}
use flight_multi_agent.MonitoringStore.{Item, DeadLetter, dead_letter, RedriveRequest}
use flight_multi_agent.MonitoringStore.Outbox.DeadLetters.{claim_redrive, get_dead_letter}
use flight_multi_agent.MonitoringStore.Outbox.{dead_letter_key}
use flight_multi_agent.Events.{candidate_payload, candidate_outbox}
use flight_multi_agent.Operations.{
  OpsWorld, OpsOutside, RedriveCall, redrive_dead_letter, require_operator, validate_consumer,
  redrive_letter, record_for_redrive, claim_and_publish, publish_redrive, finish_publication,
  note_failure,
}
use flight_multi_agent.Base.Result.{refused, answered}
use flight_multi_agent.MonitoringStore.Outbox.DeadLetters.{dead_letter_count, list_dead_letters}
use flight_multi_agent.Operations.Status.{operations_status, operational_state}
use flight_multi_agent.Operations.Redriven.{redrive-at_most_once}
use flight_multi_agent.Examples.Sample.{delayed_by}

abbrev request_by : String → String → RedriveRequest
request_by operator now = record {
  consumer = "travel-eval-agent-v1";
  event_id = "cand-a";
  request_id = "request-1";
  operator_ref = operator;
  reason = "provider is back";
  requested_at = now;
}

abbrev empty_store : Table (Item ℕ)
empty_store = []

first_succeeds : (claim_redrive empty_store (request_by "operator-a" "t0")).0.0 ≡ true
unfolding claim_redrive get_item
first_succeeds = refl

abbrev letter : DeadLetter ℕ
letter = record {
  payload = some (candidate_payload (delayed_by 45));
  error_code = "EVALUATION_FAILED";
  attempts = 5;
  status = "active";
  recorded_at = "t0";
  redrive_request_id = none;
  redriven_at = none;
}

abbrev quarantined : OpsWorld ℕ
quarantined = record {
  store = (dead_letter_key "travel-eval-agent-v1" "cand-a", dead_letter letter) ∷ [];
  published = [];
}

-- The mark of the letter fails after the publication.
abbrev marks_lost : OpsOutside
marks_lost = record {
  publishes = true;
  marks = false;
  finishes = true;
  notes = true;
  now = "t2";
  trace_headers = [];
}

abbrev call_by : String → RedriveCall
call_by operator = record {
  configured = "secret";
  supplied = "secret";
  command = request_by operator "t1";
}

abbrev after_first : OpsWorld ℕ
after_first = (redrive_dead_letter marks_lost (call_by "operator-a") quarantined).1

publishes_first : length after_first.published ≡ 1
unfolding redrive_dead_letter require_operator validate_consumer get_dead_letter get_item
    redrive_letter record_for_redrive candidate_outbox claim_and_publish claim_redrive
    publish_redrive finish_publication note_failure
publishes_first = refl

redrive-at_most_once_example :
    length (redrive_dead_letter marks_lost (call_by "operator-b") after_first).1.published ≤ 1
redrive-at_most_once_example =
    redrive-at_most_once marks_lost marks_lost (call_by "operator-a") (call_by "operator-b")
      quarantined refl

-- Without the credential, nothing is reported.
turned_away : operations_status (λ consumer. none) empty_store "secret" "guess" ≡ refused 401
unfolding operations_status require_operator
turned_away = refl

reports_gauges :
    (elim (operations_status (λ consumer. none) quarantined.store "secret" "secret") [
      | refused status ↦ []
      | answered state ↦ state.dead_letters
    ])
    ≡ ("travel-eval-agent-v1", 1)
      ∷ ("travel-notification-action-v1", 0)
      ∷ ("travel-flight-search-action-v1", 0)
      ∷ []
unfolding operations_status require_operator operational_state dead_letter_count list_dead_letters
reports_gauges = refl
