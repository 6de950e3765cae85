-- ===== src/Webhook/Alone.antt =====
-- A reconciliation that no other caller disturbs, as one indivisible step on the store.
use Prim.Native.String
use text.Mathlib.TextEquality.{eq_iff}
use flight_multi_agent.Base.{
  ℕ, suc, ◌≡◌, inl, inr, String, false, Option, none, some, arith, Option-cases,
}
use flight_multi_agent.Base.Text.{first_code, first_code-cons, str_eq-apart}
use flight_multi_agent.Base.Table.{Table, key_eq, put_item}
use flight_multi_agent.Base.Result.{Result, ok}
use flight_multi_agent.Events.{NotificationRecord}
use flight_multi_agent.MonitoringStore.{
  Item, notification, notification_key, get_notification, get_notification_by_provider_delivery,
  compare_and_set_notification, index_key,
}
use flight_multi_agent.Webhook.{
  Callback, Outcome, ignored_because, replacement, applied_outcome, attempt, or_text,
  reconcile_from, reconcile_twilio_sms_status, ignored_outcome, unknown_outcome,
}

module _ (now : String) (callback : Callback) (updated_at : Option String) where
  abbrev pub located : {F : Type 0} → Table (Item F) → Option (String × NotificationRecord)
  located store = get_notification_by_provider_delivery store "twilio" callback.message_sid

  abbrev pub renewed : NotificationRecord → NotificationRecord
  renewed = replacement callback (or_text updated_at now)

  -- What a callback does to the record that it is about.
  unfoldable pub advanced : NotificationRecord → NotificationRecord
  advanced current = elim (ignored_because callback current) [
    | some reason ↦ current
    | none ↦ renewed current
  ]

  unfoldable pub reported : String → NotificationRecord → Outcome
  reported id current = elim (ignored_because callback current) [
    | some reason ↦ ignored_outcome callback reason id current
    | none ↦ applied_outcome callback id current
  ]

  unfoldable pub settle : {F : Type 0} → Table (Item F) → Result Outcome × Table (Item F)
  settle store = elim (located store) [
    | none ↦ (ok (unknown_outcome callback), store)
    | some (id, current) ↦ elim (ignored_because callback current) [
      | some reason ↦ (ok (reported id current), store)
      | none ↦ (
        ok (reported id current),
        put_item (notification_key id) (notification (advanced current)) store,
      )
    ]
  ]

  module _ {F : Type 0} (dumps : NotificationRecord → String) (more : ℕ)
      (store : Table (Item F)) where
    abbrev reconciled : Result Outcome × Table (Item F)
    reconciled =
        reconcile_twilio_sms_status dumps (λ _. now) (λ _ table. table) callback updated_at
          (suc more) store

    located-held :
        (id : String) (current : NotificationRecord)
        → located store ≡ some (id, current)
        → get_notification store id ≡ some current
    unfolding get_notification_by_provider_delivery
    located-held id current found = ground arith

    -- Where no other caller intervenes and at least one pass is allowed, a reconciliation does not
    -- raise and takes effect as one indivisible step: an unknown delivery and a callback that is
    -- ignored leave the store, and any other replaces the record.
    pub reconcile-alone : reconciled ≡ settle store
    unfolding reconcile_twilio_sms_status reconcile_from attempt settle reported advanced
        compare_and_set_notification
    reconcile-alone = elim (Option-cases (located store)) [
      | inl missing ↦ ground arith
      | inr ((id, current), found) ↦
          let held = located-held id current found in
          ground (arith, eq_iff (dumps current) (dumps current))
    ]

pub index_key-apart :
    (id provider sid : String) → key_eq (notification_key id) (index_key provider sid) ≡ false
index_key-apart id provider sid =
    let tail = String.◌++◌ sid "" in
    let starts : first_code (String.◌++◌ "DELIVERY#" tail) ≡ 68 =
      first_code-cons "D" "ELIVERY#" tail in
    let other = str_eq-apart "NOTIFICATION" (String.◌++◌ "DELIVERY#" tail) (omega arith) in
    ground arith
