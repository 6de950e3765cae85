-- ===== src/Examples/Evaluations.antt =====
-- A message about a flight that is 45 minutes late, delivered to the evaluation service.
use flight_multi_agent.Base.{
  str_eq, ℕ, ◌≤◌, ◌≡◌, refl, String, true, false, Option, none, some, [], if◌then◌else◌, any, all,
  length, filter,
}
use flight_multi_agent.Base.Assoc.{lookup, insert}
use flight_multi_agent.Base.Text.{remove_prefix}
use flight_multi_agent.Base.Table.{Table, get_item, put_item}
use flight_multi_agent.Base.Result.{Result, ok, raise, runtime_error}
use flight_multi_agent.Clock.{parse_timestamp, format_timestamp, plus}
use flight_multi_agent.Evidence.{Candidate, Decision, suppress, is_suppress}
use flight_multi_agent.Policy.{evaluate, episode_key, severity_band}
use flight_multi_agent.Events.{
  candidate_payload, candidate_outbox, disruption_candidate, outbox_record, confirmed_outbox,
}
use flight_multi_agent.MonitoringStore.{
  Item, outbox_key, get_decision, put_decision, get_policy_band, put_policy_band,
}
use flight_multi_agent.MonitoringStore.Outbox.{
  put_candidate_with_outbox, list_outbox, pending, put_candidate, commit_evaluation_with_outbox,
}
use flight_multi_agent.EventDelivery.{
  PublisherCalls, Message, Settlement, acknowledged, publish_pending_outbox, publish_all,
  publish_record,
}
use flight_multi_agent.EventDelivery.Publish.{
  is_published, is_handled, is_delivered, handled, publish_pending_outbox-pending,
}
use flight_multi_agent.EvalService.{
  Calls, process_candidate_message, process_candidate, evaluate_candidate, fresh_evaluation,
  commit_evaluation,
}
use flight_multi_agent.EvalService.Delivery.{IsAnnounced, acknowledged-IsAnnounced, delivered-rises}
use flight_multi_agent.Examples.Sample.{numerals, policy_v1, delayed_by}

abbrev pub late_candidate : Candidate ℕ
late_candidate = delayed_by 45

abbrev sample_decision : Decision ℕ
sample_decision = record {
  decision_id = "decision-a";
  candidate_id = "cand-a";
  trip_id = "trip-a";
  leg_id = "leg-1";
  decided_at = "100";
  verdict = suppress;
  reason_codes = [];
  policy_version = "1.2.0";
  confidence = 9000;
  cooldown_until = "100";
}

abbrev pub silent : Candidate ℕ → Decision ℕ → Result (Option String)
silent c d = ok none

abbrev pub reachable : Calls
reachable = record { transacts = true; publishes = false; acks = true }

abbrev pub candidate_message : Message ℕ
candidate_message = record {
  envelope = some (record {
    event_id = "cand-a";
    occurred_at = "100";
    payload = candidate_payload late_candidate;
  });
  fallback = "unreadable-0";
  num_delivered = some 1;
}

abbrev pub deliver_to : Table (Item ℕ) → Settlement × Table (Item ℕ)
deliver_to =
    process_candidate_message numerals policy_v1 silent [] reachable 5 "t" candidate_message

pub acks_late : (deliver_to []).0 ≡ acknowledged
unfolding process_candidate_message process_candidate evaluate_candidate fresh_evaluation evaluate
    episode_key severity_band lookup insert parse_timestamp format_timestamp plus numerals
    get_decision get_policy_band get_item remove_prefix
acks_late = refl

pub undecided : get_decision {F = ℕ} [] "cand-a" ≡ none
unfolding get_decision get_item
undecided = refl

abbrev pub decided : Decision ℕ
decided = elim (get_decision (deliver_to []).1 "cand-a") [ some d ↦ d | none ↦ sample_decision ]

pub decides : get_decision (deliver_to []).1 "cand-a" ≡ some decided
unfolding process_candidate_message process_candidate evaluate_candidate fresh_evaluation evaluate
    episode_key severity_band lookup insert parse_timestamp format_timestamp plus numerals
    get_decision get_policy_band get_item remove_prefix commit_evaluation
    commit_evaluation_with_outbox confirmed_outbox outbox_record put_item
decides = refl

pub notifies : is_suppress decided.verdict ≡ false
unfolding process_candidate_message process_candidate evaluate_candidate fresh_evaluation evaluate
    episode_key severity_band lookup insert parse_timestamp format_timestamp plus numerals
    get_decision get_policy_band get_item remove_prefix commit_evaluation
    commit_evaluation_with_outbox confirmed_outbox outbox_record put_item
notifies = refl

acknowledged-IsAnnounced_example : IsAnnounced [] false late_candidate decided (deliver_to []).1
acknowledged-IsAnnounced_example =
    acknowledged-IsAnnounced numerals policy_v1 silent [] reachable 5 "t" candidate_message [] _
      late_candidate refl refl undecided acks_late decided decides notifies

abbrev decided_store : Table (Item ℕ)
decided_store = put_decision [] "cand-a" sample_decision

is_decided : get_decision decided_store "cand-a" ≡ some sample_decision
unfolding get_decision put_decision get_item put_item
is_decided = refl

abbrev banded_store : Table (Item ℕ)
banded_store = put_policy_band [] "trip-a:leg-1:DELAY" 1

is_banded : get_policy_band banded_store "trip-a:leg-1:DELAY" ≡ some 1
unfolding get_policy_band put_policy_band get_item put_item
is_banded = refl

delivered-rises_example :
    (top : ℕ) × (get_policy_band (deliver_to banded_store).1 "trip-a:leg-1:DELAY" ≡ some top)
    × (1 ≤ top)
delivered-rises_example =
    delivered-rises numerals policy_v1 silent [] reachable 5 "t" candidate_message banded_store
      "trip-a:leg-1:DELAY" 1 is_banded

-- The publisher reaches the bus for this record only, and the store answers.
abbrev publisher : PublisherCalls ℕ
publisher = record {
  publish = λ r. str_eq r.event_id "cand-a";
  deletes = λ r. true;
  notes = λ r. true;
}

-- The store refuses the deletion.
abbrev keeping_publisher : PublisherCalls ℕ
keeping_publisher = record publisher { deletes = λ r. false }

abbrev with_pending : Table (Item ℕ)
with_pending = put_candidate_with_outbox [] [] late_candidate

publish_pending_outbox-pending_example :
    let records = list_outbox with_pending disruption_candidate 20 in
    let after = publish_pending_outbox publisher "t" disruption_candidate 20 with_pending in
    let key = outbox_key "disruption_candidate" "cand-a" in
    (pending after.1 key ≡ (
      if any (is_published publisher disruption_candidate key) (handled publisher records)
      then none
      else pending with_pending key))
    × (after.0 ≡ (
        if all (is_handled publisher) records
        then ok (length (filter (is_delivered publisher) records))
        else raise runtime_error))
publish_pending_outbox-pending_example =
    publish_pending_outbox-pending publisher "t" disruption_candidate 20 with_pending
      (outbox_key "disruption_candidate" "cand-a")

publishes_one : (publish_pending_outbox publisher "t" disruption_candidate 20 with_pending).0 ≡ ok 1
unfolding publish_pending_outbox publish_all publish_record put_candidate_with_outbox put_candidate
    candidate_outbox outbox_record list_outbox put_item
publishes_one = refl

-- An acknowledged record that is not deleted is not counted.
counts_none :
    (publish_pending_outbox keeping_publisher "t" disruption_candidate 20 with_pending).0 ≡ ok 0
unfolding publish_pending_outbox publish_all publish_record put_candidate_with_outbox put_candidate
    candidate_outbox outbox_record list_outbox put_item
counts_none = refl
