-- ===== src/Webhook.antt =====
-- flight_agent/notification_webhook.py: the reconciliation of a provider's delivery status with the
-- stored notification, by optimistic updates that are tried again.
--
-- The store is shared: `others` is what other callers do to it, one step before each read and one
-- before each write. A status is its text. `dumps` is the text under which the store compares
-- records, `now_utc` the clock.
pub mod Advance
pub mod Alone
pub mod Precedence
pub mod Order
use flight_multi_agent.Base.{
  ℕ, zero, suc, ◌+◌, ◌*◌, String, Bool, true, false, not, ◌&&◌, ◌||◌, Option, none, some, [], ◌∷◌,
  leb, if◌then◌else◌, is_some, str_eq,
}
use flight_multi_agent.Base.Text.{fstring, truthy}
use flight_multi_agent.Base.Decimal.{decimal}
use flight_multi_agent.Base.Table.{Table}
use flight_multi_agent.Base.Result.{Result, ok, raise, Error, runtime_error}
use flight_multi_agent.Events.{NotificationRecord, ActionStatus}
use flight_multi_agent.MonitoringStore.{
  Item, get_notification_by_provider_delivery, compare_and_set_notification,
}

pub record Callback : Type 0 where
  pub message_sid : String
  pub message_status : String
  pub error_code : Option ℕ

pub data IgnoredReason : Type 0 where
  unknown_delivery duplicate_status stale_status terminal_status : IgnoredReason

pub record Outcome : Type 0 where
  pub provider_delivery_id : String
  pub found : Bool
  pub applied : Bool
  pub duplicate : Bool
  pub ignored_reason : Option IgnoredReason
  pub decision_id : Option String
  pub notification_id : Option String
  pub previous_provider_status : Option String
  pub provider_status : Option String
  pub action_status : Option ActionStatus

-- One more than the rank of the code, where a status without a rank has -1.
unfoldable pub progress_rank : String → ℕ
progress_rank status =
    if str_eq status "accepted"
    then 1
    else if str_eq status "scheduled"
    then 1
    else if str_eq status "queued"
    then 2
    else if str_eq status "sending"
    then 3
    else if str_eq status "sent"
    then 4
    else 0

unfoldable pub is_terminal : String → Bool
is_terminal status =
    str_eq status "delivered"
    || (str_eq status "undelivered" || (str_eq status "failed" || str_eq status "canceled"))

unfoldable pub action_status : String → ActionStatus
action_status provider_status =
    if str_eq provider_status "delivered"
    then ActionStatus.delivered
    else if str_eq provider_status "undelivered"
        || (str_eq provider_status "failed" || str_eq provider_status "canceled")
    then ActionStatus.failed
    else ActionStatus.accepted

abbrev pub is_closed : ActionStatus → Bool
is_closed ActionStatus.delivered = true
is_closed ActionStatus.failed = true
is_closed _ = false

abbrev known_status : ActionStatus → Option ActionStatus
known_status ActionStatus.accepted = some ActionStatus.accepted
known_status ActionStatus.delivered = some ActionStatus.delivered
known_status ActionStatus.failed = some ActionStatus.failed
known_status _ = none

-- A text that is missing or empty is replaced.
abbrev pub or_text : Option String → String → String
or_text none default = default
or_text (some text) default = if truthy text then text else default

abbrev known_text : Option String → Option String
known_text none = none
known_text (some text) = if truthy text then some text else none

abbrev pub previous_status : NotificationRecord → String
previous_status current = or_text current.provider_status "accepted"

abbrev pub unknown_outcome : Callback → Outcome
unknown_outcome callback = record {
  provider_delivery_id = callback.message_sid;
  found = false;
  applied = false;
  duplicate = false;
  ignored_reason = some unknown_delivery;
  decision_id = none;
  notification_id = none;
  previous_provider_status = none;
  provider_status = some callback.message_status;
  action_status = none;
}

abbrev is_duplicate : IgnoredReason → Bool
is_duplicate duplicate_status = true
is_duplicate _ = false

abbrev pub ignored_outcome : Callback → IgnoredReason → String → NotificationRecord → Outcome
ignored_outcome callback reason decision_id current = record {
  provider_delivery_id = callback.message_sid;
  found = true;
  applied = false;
  duplicate = is_duplicate reason;
  ignored_reason = some reason;
  decision_id = some decision_id;
  notification_id = known_text (some current.notification_id);
  previous_provider_status = known_text current.provider_status;
  provider_status = some callback.message_status;
  action_status = known_status current.status;
}

abbrev pub applied_outcome : Callback → String → NotificationRecord → Outcome
applied_outcome callback decision_id current = record {
  provider_delivery_id = callback.message_sid;
  found = true;
  applied = true;
  duplicate = false;
  ignored_reason = none;
  decision_id = some decision_id;
  notification_id = some current.notification_id;
  previous_provider_status = some (previous_status current);
  provider_status = some callback.message_status;
  action_status = some (action_status callback.message_status);
}

-- Why a callback is not applied to the record that was read, if it is not.
unfoldable pub ignored_because : Callback → NotificationRecord → Option IgnoredReason
ignored_because callback current =
    let previous = previous_status current in
    let reported = callback.message_status in
    if str_eq previous reported
    then some duplicate_status
    else if is_terminal previous || is_closed current.status
    then some terminal_status
    else if not (is_terminal reported) && leb (progress_rank reported) (progress_rank previous)
    then some stale_status
    else none

abbrev error_text : Option ℕ → Option String
error_text none = none
error_text (some code) = some (fstring ("TWILIO_" ∷ decimal code ∷ []))

abbrev pub replacement : Callback → String → NotificationRecord → NotificationRecord
replacement callback time current = record {
  notification_id = current.notification_id;
  candidate_id = current.candidate_id;
  decision_id = current.decision_id;
  trip_id = current.trip_id;
  leg_id = current.leg_id;
  verdict = current.verdict;
  status = action_status callback.message_status;
  idempotency_key = current.idempotency_key;
  provider = current.provider;
  provider_delivery_id = current.provider_delivery_id;
  provider_status = some callback.message_status;
  recorded_at = current.recorded_at;
  delivery_updated_at = some time;
  error_code = error_text callback.error_code;
  submission_failure = current.submission_failure;
  explanation = current.explanation;
}

module _ {F : Type 0} (dumps : NotificationRecord → String) (now_utc : ℕ → String)
    (others : ℕ → Table (Item F) → Table (Item F)) (callback : Callback)
    (updated_at : Option String) where
  -- The write of one attempt; `none` if the record has changed since it was read.
  abbrev write : ℕ → String → NotificationRecord → Table (Item F) → Option Outcome × Table (Item F)
  write attempts decision_id current store =
      let time = or_text updated_at (now_utc attempts) in
      let written =
        compare_and_set_notification store dumps decision_id current
          (replacement callback time current) in
      (if written.0 then some (applied_outcome callback decision_id current) else none, written.1)

  -- One pass of the loop, after the given number of passes; `none` for another pass.
  unfoldable pub attempt : ℕ → Table (Item F) → Option Outcome × Table (Item F)
  attempt attempts before =
      let store = others (2 * attempts) before in
      elim (get_notification_by_provider_delivery store "twilio" callback.message_sid) [
        | none ↦ (some (unknown_outcome callback), store)
        | some (decision_id, current) ↦ elim (ignored_because callback current) [
          | some reason ↦ (some (ignored_outcome callback reason decision_id current), store)
          | none ↦ write attempts decision_id current (others (2 * attempts + 1) store)
        ]
      ]

  unfoldable pub reconcile_from : ℕ → ℕ → Table (Item F) → Result Outcome × Table (Item F)
  reconcile_from zero attempts store = (raise runtime_error, store)
  reconcile_from (suc remaining) attempts store =
      let tried = attempt attempts store in
      elim tried.0 [
        | some outcome ↦ (ok outcome, tried.1)
        | none ↦ reconcile_from remaining (suc attempts) tried.1
      ]

  unfoldable pub reconcile_twilio_sms_status : ℕ → Table (Item F) → Result Outcome × Table (Item F)
  unfolding reconcile_from
  reconcile_twilio_sms_status maximum_attempts store = reconcile_from maximum_attempts 0 store
