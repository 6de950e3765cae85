-- ===== src/EvalService.antt =====
-- flight_agent/eval_service.py: the evaluation of a candidate against the store, its commit, and
-- the handling of a candidate's message.
--
-- The calls outside the service are parameters: `advise` is the reasoner's advisory, and `calls`
-- says whether the transaction, the publication and the acknowledgement of this delivery succeed. A
-- publication that succeeds has also deleted the outbox record. The evaluation and the commit of a
-- delivery are one step, as they are where one consumer handles the messages in sequence.
pub mod Redelivery
pub mod Stored
pub mod Delivery
use flight_multi_agent.Base.{
  ℕ, String, Bool, true, false, Option, none, some, List, [], ◌∷◌, if◌then◌else◌, ◌&&◌,
}
use flight_multi_agent.Base.Text.{fstring, remove_prefix}
use flight_multi_agent.Base.Assoc.{Dict, lookup}
use flight_multi_agent.Base.Table.{Table}
use flight_multi_agent.Base.Result.{
  Result, ok, raise, ◌>>=◌, Error, client_error, bus_error, value_error,
}
use flight_multi_agent.Clock.{IsoFormat}
use flight_multi_agent.Evidence.{Candidate, Decision, is_suppress, category_text}
use flight_multi_agent.Policy.{Policy, PolicyState, evaluate}
use flight_multi_agent.Events.{
  ConfirmedEvent, Payload, candidate_payload, disruption_candidate, disruption_confirmed,
  confirmed_outbox, OutboxRecord,
}
use flight_multi_agent.MonitoringStore.{Item, get_decision, get_confirmed_event, get_policy_band}
use flight_multi_agent.MonitoringStore.Outbox.{commit_evaluation_with_outbox, delete_outbox}
use flight_multi_agent.EventDelivery.{
  Settlement, acknowledged, Message, Envelope, quarantine_message, retry_or_quarantine,
}

pub record Evaluation (F : Type 0) : Type 0 where
  pub decision : Decision F
  pub confirmed_event : Option ConfirmedEvent
  pub episode_key : String
  pub notified_band : Option ℕ
  pub already_processed : Bool

module _ {F : Type 0} where
  abbrev pub episode_of : Candidate F → String
  episode_of c = fstring (c.trip_id ∷ ":" ∷ c.leg_id ∷ ":" ∷ category_text c.category ∷ [])

  -- The history that the policy is given: the stored band of the episode, if there is one.
  abbrev pub stored_state : Table (Item F) → String → PolicyState
  stored_state table episode = elim (get_policy_band table episode) [
    | none ↦ record { highest_notified_band = [] }
    | some b ↦ record { highest_notified_band = (episode, b) ∷ [] }
  ]

  abbrev pub event_for : Candidate F → Decision F → ConfirmedEvent
  event_for c d = record {
    candidate_id = c.candidate_id;
    decision_id = d.decision_id;
    trip_id = c.trip_id;
    leg_id = c.leg_id;
    category = c.category;
    verdict = d.verdict;
    reason_codes = d.reason_codes;
    published_at = d.decided_at;
  }

  abbrev pub confirmed_for : Candidate F → Decision F → Option ConfirmedEvent
  confirmed_for c d = if is_suppress d.verdict then none else some (event_for c d)

  abbrev pub evaluation_of : Candidate F → Decision F → PolicyState → Evaluation F
  evaluation_of c d history = record {
    decision = d;
    confirmed_event = confirmed_for c d;
    episode_key = episode_of c;
    notified_band = lookup (episode_of c) history.highest_notified_band;
    already_processed = false;
  }

  module _ (iso : IsoFormat) (policy : Policy) where
    -- The policy's decision, and the history after it.
    abbrev pub judged : Table (Item F) → Candidate F → Result (Decision F) × PolicyState
    judged table c =
        evaluate iso policy c (stored_state table (episode_of c))
          (fstring ("decision-" ∷ remove_prefix c.candidate_id "cand-" ∷ []))

    -- The evaluation of a candidate that has no decision yet.
    unfoldable pub fresh_evaluation : Table (Item F) → Candidate F → Result (Evaluation F)
    fresh_evaluation table c = (judged table c).0 >>= λ d. ok (evaluation_of c d (judged table c).1)

    unfoldable pub evaluate_candidate : Candidate F → Table (Item F) → Result (Evaluation F)
    evaluate_candidate c table = elim (get_decision table c.candidate_id) [
      | none ↦ fresh_evaluation table c
      | some existing ↦ ok (record {
        decision = existing;
        confirmed_event = get_confirmed_event table c.candidate_id;
        episode_key = "";
        notified_band = none;
        already_processed = true;
      })
    ]

  unfoldable pub commit_evaluation :
      Dict String → String → Evaluation F → Option String → Table (Item F) → Table (Item F)
  commit_evaluation active_headers candidate_id e advice table =
      commit_evaluation_with_outbox active_headers candidate_id e.decision e.confirmed_event
        e.episode_key e.notified_band advice table

-- Which calls of one delivery succeed.
pub record Calls : Type 0 where
  pub transacts : Bool
  pub publishes : Bool
  pub acks : Bool

module _ {F : Type 0} (iso : IsoFormat) (policy : Policy)
    (advise : Candidate F → Decision F → Result (Option String)) (active_headers : Dict String)
    (calls : Calls) where
  -- After the commit: the event is published at once, and the outbox keeps it if that fails.
  abbrev pub publish_confirmed : Option ConfirmedEvent → Table (Item F) → Table (Item F)
  publish_confirmed none table = table
  publish_confirmed (some event) table =
      if calls.publishes then delete_outbox table disruption_confirmed event.decision_id else table

  commit_with :
      Candidate F
      → Evaluation F
      → Result (Option String)
      → Table (Item F)
      → Option Error × Table (Item F)
  commit_with c e (raise error) table = (some error, table)
  commit_with c e (ok advice) table =
      let committed = commit_evaluation active_headers c.candidate_id e advice table in
      if calls.transacts
      then (
        if calls.acks then none else some bus_error,
        publish_confirmed e.confirmed_event committed,
      )
      else (some client_error, table)

  -- The body of the `try` block, after the message is decoded, with the exception that it raises.
  unfoldable pub process_candidate : Candidate F → Table (Item F) → Option Error × Table (Item F)
  unfolding commit_with
  process_candidate c table = elim (evaluate_candidate iso policy c table) [
    | raise error ↦ (some error, table)
    | ok e ↦
        if e.already_processed
        then (if calls.acks then none else some bus_error, table)
        else commit_with c e (advise c e.decision) table
  ]

  -- `maximum` is EVENT_MAX_DELIVERIES, and `now` the clock.
  module _ (maximum : ℕ) (now : String) (message : Message F) where
    settle : Envelope F → Option Error × Table (Item F) → Settlement × Table (Item F)
    settle envelope (none, table) = (acknowledged, table)
    settle envelope (some error, table) =
        retry_or_quarantine now table "travel-eval-agent-v1" message envelope.event_id
          (some envelope.payload) "EVALUATION_FAILED" maximum

    invalid : Table (Item F) → Settlement × Table (Item F)
    invalid table =
        quarantine_message now table "travel-eval-agent-v1" message message.fallback none
          "CANDIDATE_EVENT_INVALID"

    -- An envelope of another type is refused as one that does not decode.
    unfoldable pub process_candidate_message : Table (Item F) → Settlement × Table (Item F)
    unfolding settle invalid
    process_candidate_message table = elim message.envelope [
      | none ↦ invalid table
      | some envelope ↦ elim envelope.payload [
        | candidate_payload c ↦ settle envelope (process_candidate c table)
        | _ ↦ invalid table
      ]
    ]
