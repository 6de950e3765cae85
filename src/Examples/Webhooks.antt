-- ===== src/Examples/Webhooks.antt =====
-- A text message that its provider reports as sent and then as delivered.
use flight_multi_agent.Base.{
  ℕ, zero, suc, ◌≡◌, refl, String, inl, true, false, Option, none, some, [],
}
use flight_multi_agent.Base.Table.{Table, get_item, put_item}
use flight_multi_agent.Evidence.{notify}
use flight_multi_agent.Events.{NotificationRecord, ActionStatus}
use flight_multi_agent.MonitoringStore.{
  Item, put_notification, get_notification, get_notification_by_provider_delivery,
  compare_and_set_notification,
}
use flight_multi_agent.Webhook.{
  Callback, reconcile_twilio_sms_status, is_terminal, progress_rank, ignored_because, attempt,
  reconcile_from, action_status,
}
use flight_multi_agent.Webhook.Advance.{Settles, reconcile-Settles}
use flight_multi_agent.Webhook.Alone.{settle, reconcile-alone}
use flight_multi_agent.Webhook.Order.{deliver, deliver-any_order}

abbrev text_message : NotificationRecord
text_message = record {
  notification_id = "notification-a";
  candidate_id = "cand-a";
  decision_id = "decision-a";
  trip_id = "trip-a";
  leg_id = "leg-1";
  verdict = notify;
  status = ActionStatus.accepted;
  idempotency_key = "key-a";
  provider = some "twilio";
  provider_delivery_id = some "SM1";
  provider_status = some "queued";
  recorded_at = "t0";
  delivery_updated_at = none;
  error_code = none;
  submission_failure = none;
  explanation = none;
}

abbrev submitted : Table (Item ℕ)
submitted = put_notification [] "decision-a" text_message

abbrev reports : String → Callback
reports status = record { message_sid = "SM1"; message_status = status; error_code = none }

abbrev by_status : NotificationRecord → String
by_status n = n.notification_id

-- Another caller stores another notification between the passes.
abbrev intruder : ℕ → Table (Item ℕ) → Table (Item ℕ)
intruder zero table = table
intruder (suc n) table = put_notification table "decision-b" text_message

stored_status : Table (Item ℕ) → Option String
stored_status table = elim (get_notification table "decision-a") [
  | none ↦ none
  | some n ↦ n.provider_status
]

advances : stored_status (deliver by_status "t1" 4 (reports "sent") none submitted) ≡ some "sent"
unfolding stored_status reconcile_twilio_sms_status reconcile_from attempt get_notification
    put_notification get_notification_by_provider_delivery compare_and_set_notification
    ignored_because is_terminal progress_rank get_item put_item action_status
advances = refl

stale : stored_status (deliver by_status "t1" 4 (reports "accepted") none submitted) ≡ some "queued"
unfolding stored_status reconcile_twilio_sms_status reconcile_from attempt get_notification
    put_notification get_notification_by_provider_delivery compare_and_set_notification
    ignored_because is_terminal progress_rank get_item put_item action_status
stale = refl

reconcile-Settles_example :
    Settles by_status
      (λ _. "t1")
      intruder
      (reports "sent")
      none
      5
      0
      submitted
      (reconcile_twilio_sms_status by_status (λ _. "t1") intruder (reports "sent") none 5 submitted)
reconcile-Settles_example =
    reconcile-Settles by_status (λ _. "t1") intruder (reports "sent") none 5 submitted

reconcile-alone_example :
    reconcile_twilio_sms_status by_status
      (λ _. "t1")
      (λ _ table. table)
      (reports "sent")
      none
      5
      submitted
    ≡ settle "t1" (reports "sent") none submitted
reconcile-alone_example = reconcile-alone "t1" (reports "sent") none by_status 4 submitted

sent_is_open : is_terminal "sent" ≡ false
unfolding is_terminal
sent_is_open = refl

delivered_is_final : is_terminal "delivered" ≡ true
unfolding is_terminal
delivered_is_final = refl

deliver-any_order_example :
    (deliver by_status "t1" 4
        (reports "delivered")
        none
        (deliver by_status "t1" 4 (reports "sent") none submitted)
      ≡ deliver by_status "t1" 4 (reports "delivered") none submitted)
    × (deliver by_status "t1" 4
          (reports "sent")
          none
          (deliver by_status "t1" 4 (reports "delivered") none submitted)
        ≡ deliver by_status "t1" 4 (reports "delivered") none submitted)
deliver-any_order_example =
    deliver-any_order by_status "t1" 4 (reports "delivered") (reports "sent") none none submitted
      refl (sent_is_open, inl delivered_is_final)
