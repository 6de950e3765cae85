-- ===== src/NotificationAction/Once.antt =====
-- An event that was notified of is not notified of again.
use Prim.Native.String
use flight_multi_agent.Base.{
  ◌≡◌, ap, ◌∙◌, String, true, Option, none, some, arith, Option-cases, Bool-cases, inl, inr,
}
use flight_multi_agent.Base.Text.{first_code, first_code-cons}
use flight_multi_agent.Base.Result.{Result, ok, raise, Error, Result-cases, ok-injective}
use flight_multi_agent.Base.Table.{Table, put_item, get_item-put_item, key_eq_refl, key_eq-apart_sk}
use flight_multi_agent.Evidence.{Decision}
use flight_multi_agent.Events.{ConfirmedEvent, NotificationRecord}
use flight_multi_agent.MonitoringStore.{
  Item, notification, delivery_index, notification_key, index_key, get_notification,
  put_notification,
}
use flight_multi_agent.NotificationAction.{
  Outside, World, is_done, is_valid_event, is_valid_command, NotificationCommand, verified_decision,
  command_of,
}
use flight_multi_agent.NotificationAction.Process.{
  save, submit, notify_traveler, act_on, act, process_confirmed_event, wording_for,
}
use flight_multi_agent.NotificationAction.Steps.{
  act_on-push, process-again, returned-valid, act_on-sms, act-verified, act-refused, checked,
  notify_traveler-worded, notify_traveler-raised,
}

pub get-put_notification :
    {F : Type 0} (table : Table (Item F)) (id : String) (n : NotificationRecord)
    → get_notification (put_notification table id n) id ≡ some n
unfolding get_notification put_notification
get-put_notification {F} table id n =
    let key = notification_key id in
    let item : Item F = notification n in
    let put = get_item-put_item key key item table in
    let own = key_eq_refl key in
    elim (Option-cases n.provider) [
      | inl missing ↦ ground arith
      | inr (provider, named) ↦ elim (Option-cases n.provider_delivery_id) [
        | inl missing ↦ ground arith
        | inr (delivery, given) ↦
            let index = index_key provider delivery in
            let starts : first_code index.sk ≡ 68 =
              first_code-cons "D" "ELIVERY#" (String.◌++◌ delivery "") in
            let apart = key_eq-apart_sk index key (omega arith) in
            let later = get_item-put_item index key (delivery_index id) (put_item key item table) in
            ground arith
      ]
    ]

module _ {F : Type 0} (outside : Outside F) (e : ConfirmedEvent) where
  -- A done record that is returned is the stored one.
  abbrev Stores : Result NotificationRecord × World F → Type 0
  Stores result =
      (r : NotificationRecord)
      → result.0 ≡ ok r
      → is_done r.status ≡ true
      → get_notification result.1.store e.decision_id ≡ some r

  save-Stores : (r : NotificationRecord) (w : World F) → Stores (save outside e r w)
  unfolding save
  save-Stores r w last returned done =
      let put = get-put_notification w.store e.decision_id r in
      elim (Bool-cases outside.stores) [
        | inl stored ↦ ground arith
        | inr lost ↦ absurd (ground arith)
      ]

  raise-Stores : (error : Error) (w : World F) → Stores (raise error, w)
  raise-Stores error w r returned done = absurd (ground arith)

  submit-Stores :
      (command : NotificationCommand) (w : World F) → Stores (submit outside e command w)
  unfolding submit
  submit-Stores command w = elim (Bool-cases (is_valid_command command)) [
    | inl valid ↦ rw valid (save-Stores _ _)
    | inr invalid ↦ rw invalid (raise-Stores _ w)
  ]

  notify-Stores :
      (d : Decision F) (address : Option String) (w : World F)
      → Stores (notify_traveler outside e d address w)
  notify-Stores d address w = elim (Result-cases (wording_for outside e w)) [
    | inl (error, raised) ↦
        rw (notify_traveler-raised outside e d address w error raised) (raise-Stores error w)
    | inr (text, worded) ↦
        rw (notify_traveler-worded outside e d address w text worded)
          (submit-Stores (command_of e d address text) w)
  ]

  act_on-Stores : (d : Decision F) (w : World F) → Stores (act_on outside e d w)
  unfolding act_on
  act_on-Stores d w = elim (Bool-cases outside.is_twilio) [
    | inr push ↦ rw (act_on-push outside e d w push) (notify-Stores d none w)
    | inl sms ↦ elim (Option-cases (outside.recipient e.trip_id)) [
      | inl missing ↦ rw (sms, missing) (save-Stores _ w)
      | inr (phone, found) ↦
          rw (act_on-sms outside e d w phone sms found) (notify-Stores d (some phone) w)
    ]
  ]

  act-Stores : (w : World F) → Stores (act outside e w)
  act-Stores w = elim (Option-cases (verified_decision e (checked outside e w).store)) [
    | inl refused ↦ rw (act-refused outside e w refused) (λ r returned done. absurd (ground arith))
    | inr (d, verified) ↦
        rw (act-verified outside e w d verified) (act_on-Stores d (checked outside e w))
  ]

  pub process-Stores : (w : World F) → Stores (process_confirmed_event outside e w)
  unfolding process_confirmed_event
  process-Stores w = elim (Bool-cases (is_valid_event e)) [
    | inr invalid ↦ rw invalid (raise-Stores _ w)
    | inl valid ↦ elim (Option-cases (get_notification w.store e.decision_id)) [
      | inl fresh ↦ rw (valid, fresh) (act-Stores w)
      | inr (existing, found) ↦ elim (Bool-cases (is_done existing.status)) [
        | inl done ↦
            rw (valid, found, done) (λ r returned done_r. found ∙ ap some (ok-injective returned))
        | inr failed ↦ rw (valid, found, failed) (act-Stores w)
      ]
    ]
  ]

-- After an event was processed and a record came back that is accepted, delivered or a duplicate,
-- processing it again, whatever the calls out of the service then do, returns the same record,
-- changes nothing and gives the notification tool no command.
pub process-once :
    {F : Type 0} (outside again : Outside F) (e : ConfirmedEvent) (w : World F)
    (r : NotificationRecord)
    → (process_confirmed_event outside e w).0 ≡ ok r
    → is_done r.status ≡ true
    → let after = (process_confirmed_event outside e w).1 in
      process_confirmed_event again e after ≡ (ok r, after)
process-once outside again e w r returned done =
    process-again again e (process_confirmed_event outside e w).1 r
      (returned-valid outside e w r returned) (process-Stores outside e w r returned done) done
