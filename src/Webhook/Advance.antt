-- ===== src/Webhook/Advance.antt =====
-- What a reconciliation does to a store that other callers change at the same time.
use mathlib.Core.Path.{subst}
use text.Mathlib.TextEquality.{eq_iff}
use flight_multi_agent.Base.{
  ℕ, zero, suc, ◌+◌, ◌*◌, ◌<◌, ◌≡◌, ◌⊎◌, inl, inr, refl, sym, String, Bool, true, false, Option,
  none, some, arith, Option-cases, Bool-cases, str_eq,
}
use flight_multi_agent.Base.Table.{Table, put_item}
use flight_multi_agent.Base.Result.{Result, ok, raise, runtime_error}
use flight_multi_agent.Events.{NotificationRecord}
use flight_multi_agent.MonitoringStore.{
  Item, notification, notification_key, get_notification, get_notification_by_provider_delivery,
  compare_and_set_notification,
}
use flight_multi_agent.Webhook.{
  Callback, Outcome, previous_status, is_terminal, is_closed, progress_rank, ignored_because,
  replacement, applied_outcome, attempt, or_text, reconcile_from, reconcile_twilio_sms_status,
  ignored_outcome, unknown_outcome, IgnoredReason,
}

-- The record is open, and the callback's status is final or of a higher rank.
pub record IsAdvance (callback : Callback) (current : NotificationRecord) : Type 0 where
  pub unfinished : is_terminal (previous_status current) ≡ false
  pub not_closed : is_closed current.status ≡ false
  pub rises :
      (is_terminal callback.message_status ≡ true)
      ⊎ (progress_rank (previous_status current) < progress_rank callback.message_status)

pub ignored_because-none :
    (callback : Callback) (current : NotificationRecord)
    → ignored_because callback current ≡ none
    → IsAdvance callback current
unfolding ignored_because
ignored_because-none callback current applied = record {
  unfinished = ground arith;
  not_closed = ground arith;
  rises = ground arith;
}

module _ {F : Type 0} (dumps : NotificationRecord → String) (store : Table (Item F))
    (decision_id : String) (current : NotificationRecord) where
  -- The store holds a record of the decision with the text of the given one.
  abbrev pub StillHolds : Type 0
  StillHolds =
      (stored : NotificationRecord) × (get_notification store decision_id ≡ some stored)
      × (dumps stored ≡ dumps current)

  module _ (next : NotificationRecord) where
    abbrev update : Bool × Table (Item F)
    update = compare_and_set_notification store dumps decision_id current next

    pub compare_and_set-cases :
        (StillHolds
          × (update ≡ (true, put_item (notification_key decision_id) (notification next) store)))
        ⊎ (¬ StillHolds × (update ≡ (false, store)))
    unfolding compare_and_set_notification
    compare_and_set-cases = elim (Option-cases (get_notification store decision_id)) [
      | inl missing ↦ inr (λ (stored, found, same). ground arith, ground arith)
      | inr (stored, found) ↦ elim (Bool-cases (str_eq (dumps stored) (dumps current))) [
        | inl same ↦
            inl ((stored, found, (eq_iff (dumps stored) (dumps current)).0 same), ground arith)
        | inr different ↦ inr (
          λ (other, found_other, same). ground (arith, eq_iff (dumps stored) (dumps current)),
          ground arith,
        )
      ]
    ]

module _ {F : Type 0} (dumps : NotificationRecord → String) (now_utc : ℕ → String)
    (others : ℕ → Table (Item F) → Table (Item F)) (callback : Callback)
    (updated_at : Option String) where
  -- The store that a pass reads, and the store that its write meets.
  abbrev seen_by : ℕ → Table (Item F) → Table (Item F)
  seen_by attempts store = others (2 * attempts) store

  abbrev met_by : ℕ → Table (Item F) → Table (Item F)
  met_by attempts store = others (2 * attempts + 1) (seen_by attempts store)

  abbrev located : Table (Item F) → Option (String × NotificationRecord)
  located store = get_notification_by_provider_delivery store "twilio" callback.message_sid

  abbrev renewed : ℕ → NotificationRecord → NotificationRecord
  renewed attempts = replacement callback (or_text updated_at (now_utc attempts))

  -- What is answered where nothing is written: that the message is unknown, or why the record that
  -- was read does not change.
  abbrev IsIgnored : Option (String × NotificationRecord) → Outcome → Type 0
  IsIgnored read outcome =
      ((read ≡ none) × (outcome ≡ unknown_outcome callback))
      ⊎ ((id : String) × (current : NotificationRecord) × (reason : IgnoredReason) × (read
            ≡ some (id, current))
          × (ignored_because callback current ≡ some reason)
          × (outcome ≡ ignored_outcome callback reason id current))

  -- How a reconciliation can go that has so many passes left, has made so many passes, and starts
  -- from the store: it is tried again only where another caller has changed the record.
  pub data Settles : ℕ → ℕ → Table (Item F) → Result Outcome × Table (Item F) → Type 0 where
    gave_up :
        {made : ℕ} {store : Table (Item F)} → Settles zero made store (raise runtime_error, store)
    ignored :
        {left made : ℕ} {store : Table (Item F)} {outcome : Outcome}
        → IsIgnored (located (seen_by made store)) outcome
        → Settles (suc left) made store (ok outcome, seen_by made store)
    applied :
        {left made : ℕ} {store : Table (Item F)} (decision_id : String)
        (current : NotificationRecord)
        → located (seen_by made store) ≡ some (decision_id, current)
        → StillHolds dumps (met_by made store) decision_id current
        → IsAdvance callback current
        → Settles (suc left) made store (
          ok (applied_outcome callback decision_id current),
          put_item
              (notification_key decision_id)
              (notification (renewed made current))
              (met_by made store),
        )
    overtaken :
        {left made : ℕ} {store : Table (Item F)} {end : Result Outcome × Table (Item F)}
        (decision_id : String) (current : NotificationRecord)
        → located (seen_by made store) ≡ some (decision_id, current)
        → ¬ StillHolds dumps (met_by made store) decision_id current
        → Settles left (suc made) (met_by made store) end
        → Settles (suc left) made store end

  module _ (made : ℕ) (store : Table (Item F)) where
    abbrev tried : Option Outcome × Table (Item F)
    tried = attempt dumps now_utc others callback updated_at made store

    -- The three ends of a pass.
    abbrev Ignores : Type 0
    Ignores =
        (o : Outcome) × IsIgnored (located (seen_by made store)) o
        × (tried ≡ (some o, seen_by made store))

    abbrev Applies : Type 0
    Applies =
        (id : String) × (current : NotificationRecord) × (located (seen_by made store)
          ≡ some (id, current))
        × StillHolds dumps (met_by made store) id current
        × IsAdvance callback current
        × (tried ≡ (
          some (applied_outcome callback id current),
          put_item (notification_key id) (notification (renewed made current)) (met_by made store),
        ))

    abbrev IsOvertaken : Type 0
    IsOvertaken =
        (id : String) × (current : NotificationRecord) × (located (seen_by made store)
          ≡ some (id, current))
        × ¬ StillHolds dumps (met_by made store) id current
        × (tried ≡ (none, met_by made store))

    attempt-missing : located (seen_by made store) ≡ none → Ignores
    unfolding attempt
    attempt-missing missing = (unknown_outcome callback, inl (missing, refl), ground arith)

    module _ (id : String) (current : NotificationRecord)
        (found : located (seen_by made store) ≡ some (id, current)) where
      attempt-ignored :
          (reason : IgnoredReason) → ignored_because callback current ≡ some reason → Ignores
      unfolding attempt
      attempt-ignored reason why = (
        ignored_outcome callback reason id current,
        inr (id, current, reason, found, why, refl),
        ground arith,
      )

      attempt-due : ignored_because callback current ≡ none → Applies ⊎ IsOvertaken
      unfolding attempt
      attempt-due due =
          elim (compare_and_set-cases dumps (met_by made store) id current (renewed made current)) [
            | inl (held, e) ↦
                inl (
                  id,
                  current,
                  found,
                  held,
                  ignored_because-none callback current due,
                  ground arith,
                )
            | inr (changed, e) ↦ inr (id, current, found, changed, ground arith)
          ]

    attempt-cases : Ignores ⊎ (Applies ⊎ IsOvertaken)
    attempt-cases = elim (Option-cases (located (seen_by made store))) [
      | inl missing ↦ inl (attempt-missing missing)
      | inr ((id, current), found) ↦ elim (Option-cases (ignored_because callback current)) [
        | inl due ↦ inr (attempt-due id current found due)
        | inr (reason, why) ↦ inl (attempt-ignored id current found reason why)
      ]
    ]

  abbrev next : ℕ → ℕ → Option Outcome × Table (Item F) → Result Outcome × Table (Item F)
  next left made t = elim t.0 [
    | some outcome ↦ (ok outcome, t.1)
    | none ↦ reconcile_from dumps now_utc others callback updated_at left (suc made) t.1
  ]

  reconcile_from-Settles :
      (left made : ℕ) (store : Table (Item F))
      → Settles left made store
          (reconcile_from dumps now_utc others callback updated_at left made store)
  unfolding reconcile_from
  reconcile_from-Settles zero made store = gave_up
  reconcile_from-Settles (suc left) made store = elim (attempt-cases made store) [
    | inl (outcome, passed, e) ↦
        subst (λ t. Settles (suc left) made store (next left made t)) (sym e) (ignored passed)
    | inr (inl (decision_id, current, found, held, advance, e)) ↦
        subst (λ t. Settles (suc left) made store (next left made t)) (sym e)
          (applied decision_id current found held advance)
    | inr (inr (decision_id, current, found, changed, e)) ↦
        subst (λ t. Settles (suc left) made store (next left made t)) (sym e)
          (overtaken decision_id current found changed
            (reconcile_from-Settles left (suc made) (met_by made store)))
  ]

  -- However other callers change the store before each read and each write, a reconciliation ends
  -- in one of three ways. A callback that is ignored leaves the store as it was read; the answer is
  -- that the message is unknown, where no record was read, and else the reason for which the record
  -- that was read does not change. One that is applied writes once, over the record of the decision
  -- that was read, while its text is the one that was read; that record was open and its rank is
  -- below the callback's, if that is not final. The exception is raised only after
  -- all the passes that are allowed. A pass is made again only where the store no longer holds a
  -- record with the text that was read.
  pub reconcile-Settles :
      (maximum_attempts : ℕ) (store : Table (Item F))
      → Settles maximum_attempts 0 store (
          reconcile_twilio_sms_status dumps now_utc others callback updated_at maximum_attempts
            store)
  unfolding reconcile_twilio_sms_status
  reconcile-Settles maximum_attempts store = reconcile_from-Settles maximum_attempts 0 store
