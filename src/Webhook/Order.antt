-- ===== src/Webhook/Order.antt =====
-- Callbacks that arrive again or out of order.
use flight_multi_agent.Base.{
  ℕ, suc, ◌≡◌, inl, inr, refl, sym, ap, String, Option, none, some, arith, Option-cases, is_some,
  if◌then◌else◌,
}
use flight_multi_agent.Base.Table.{
  Table, put_item, get_item-put_item, put_item-put_item, key_eq_refl,
}
use flight_multi_agent.Events.{NotificationRecord}
use flight_multi_agent.MonitoringStore.{
  Item, notification, notification_key, index_key, get_notification_by_provider_delivery,
  get_notification,
}
use flight_multi_agent.Webhook.{Callback, reconcile_twilio_sms_status, or_text, ignored_because}
use flight_multi_agent.Webhook.Alone.{
  advanced, settle, located, renewed, index_key-apart, reconcile-alone,
}
use flight_multi_agent.Webhook.Precedence.{
  Covers, Supersedes, Covers-refl, late-ignored, advanced-due, superseded-due, superseded-due_after,
  advanced-overtakes,
}

module _ {F : Type 0} (now : String) (callback : Callback) (time : Option String)
    (store : Table (Item F)) where
  module _ (id : String) (current : NotificationRecord)
      (found : located now callback time store ≡ some (id, current)) where
    located-settle :
        located now callback time (settle now callback time store).1
        ≡ some (id, advanced now callback time current)
    unfolding settle advanced get_notification_by_provider_delivery get_notification
    located-settle =
        let key = notification_key id in
        let index = index_key "twilio" callback.message_sid in
        let item : Item F = notification (renewed now callback time current) in
        ground (
          arith,
          index_key-apart id "twilio" callback.message_sid,
          get_item-put_item key index item store,
          get_item-put_item key key item store,
          key_eq_refl key,
        )

  settle-unlocated :
      located now callback time store ≡ none → (settle now callback time store).1 ≡ store
  unfolding settle
  settle-unlocated missing = ground arith

  settle-located :
      (id : String) (current : NotificationRecord)
      → located now callback time store ≡ some (id, current)
      → (settle now callback time store).1 ≡ (
          if is_some (ignored_because callback current)
          then store
          else put_item
              (notification_key id)
              (notification (advanced now callback time current))
              store)
  unfolding settle
  settle-located id current found = ground arith

module _ {F : Type 0} (now : String) (late early : Callback) (time_late time_early : Option String)
    (same : late.message_sid ≡ early.message_sid) (store : Table (Item F)) where
  abbrev before : Table (Item F)
  before = (settle now early time_early store).1

  -- A callback that another one of its delivery covers, its own repetition included, leaves the
  -- store as the other one left it.
  pub settle-late : Covers early late → (settle now late time_late before).1 ≡ before
  settle-late covers = elim (Option-cases (located now early time_early store)) [
    | inl missing ↦
        let kept = settle-unlocated now early time_early store missing in
        let unlocated : located now late time_late before ≡ none = ground arith in
        settle-unlocated now late time_late before unlocated
    | inr ((id, current), found) ↦
        let next = advanced now early time_early current in
        let kept = located-settle now early time_early store id current found in
        let held : located now late time_late before ≡ some (id, next) = ground arith in
        let ignored = late-ignored now late early time_late time_early covers current in
        let result = settle-located now late time_late before id next held in ground arith
  ]

  settle-overtakes :
      Supersedes late early
      → (settle now late time_late before).1 ≡ (settle now late time_late store).1
  settle-overtakes supersedes = elim (Option-cases (located now early time_early store)) [
    | inl missing ↦
        ap (λ s. (settle now late time_late s).1)
          (settle-unlocated now early time_early store missing)
    | inr ((id, current), found) ↦
        let stored = settle-located now early time_early store id current found in
        elim (Option-cases (ignored_because early current)) [
          | inr (reason, why) ↦
              let kept : before ≡ store = ground arith in
              ap (λ s. (settle now late time_late s).1) kept
          | inl due ↦
              let next = advanced now early time_early current in
              let last = advanced now late time_late current in
              let key = notification_key id in
              let kept = located-settle now early time_early store id current found in
              let held : located now late time_late before ≡ some (id, next) = ground arith in
              let held_late : located now late time_late store ≡ some (id, current) =
                ground arith in
              let result = settle-located now late time_late before id next held in
              let alone = settle-located now late time_late store id current held_late in
              let renewal = advanced-due now early time_early current due in
              let due_late =
                superseded-due now late early time_late time_early current supersedes due in
              let due_after =
                superseded-due_after now late early time_late time_early current supersedes due
                  (or_text time_early now) in
              let overtaken =
                advanced-overtakes now late early time_late time_early current supersedes in
              let collapsed = put_item-put_item key (notification next) (notification last) store in
              ground arith
        ]
  ]

-- One delivery of a callback to the webhook, undisturbed and with at least one pass.
module _ {F : Type 0} (dumps : NotificationRecord → String) (now : String) (more : ℕ) where
  abbrev pub deliver : Callback → Option String → Table (Item F) → Table (Item F)
  deliver callback time store =
      (reconcile_twilio_sms_status dumps (λ _. now) (λ _ table. table) callback time (suc more)
        store).1

  deliver-settle :
      (callback : Callback) (time : Option String) (store : Table (Item F))
      → deliver callback time store ≡ (settle now callback time store).1
  deliver-settle callback time store =
      ap (λ r. r.1) (reconcile-alone now callback time dumps more store)

  -- A callback that is delivered again leaves the store as its first delivery left it, also with
  -- another time.
  pub deliver-repeat :
      (callback : Callback) (first again : Option String) (store : Table (Item F))
      → deliver callback again (deliver callback first store) ≡ deliver callback first store
  deliver-repeat callback first again store =
      rw
        (
          deliver-settle callback first store,
          deliver-settle callback again (settle now callback first store).1,
        )
        (settle-late now callback callback again first refl store (Covers-refl callback))

  -- Of two callbacks for one delivery, where the status of the later one is final and that of the
  -- earlier one is not, or neither is final and it has the higher rank, the order of arrival does
  -- not matter: the store is the one that the later callback alone leaves.
  pub deliver-any_order :
      (late early : Callback) (time_late time_early : Option String) (store : Table (Item F))
      → late.message_sid ≡ early.message_sid
      → Supersedes late early
      → (deliver late time_late (deliver early time_early store) ≡ deliver late time_late store)
        × (deliver early time_early (deliver late time_late store) ≡ deliver late time_late store)
  deliver-any_order late early time_late time_early store same supersedes = (
    rw
        (
          deliver-settle early time_early store,
          deliver-settle late time_late (settle now early time_early store).1,
          deliver-settle late time_late store,
        )
        (settle-overtakes now late early time_late time_early same store supersedes),
    rw
        (
          deliver-settle late time_late store,
          deliver-settle early time_early (settle now late time_late store).1,
        )
        (settle-late now early late time_early time_late (sym same) store (ground arith)),
  )
