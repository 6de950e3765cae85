-- ===== src/NotificationAction/Steps.antt =====
-- The branches of the notification action, one equation each.
use flight_multi_agent.Base.{
  ◌≡◌, ◌⊎◌, inl, inr, String, true, false, Option, none, some, arith, Option-cases, Bool-cases,
}
use flight_multi_agent.Base.Result.{ok, raise, Error}
use flight_multi_agent.Evidence.{Decision}
use flight_multi_agent.Events.{ActionStatus, ConfirmedEvent, Explanation, NotificationRecord}
use flight_multi_agent.MonitoringStore.{get_notification}
use flight_multi_agent.NotificationAction.{
  record_of, Outside, World, verified_decision, wait_for_commit, command_of, is_valid_event,
  is_done,
}
use flight_multi_agent.NotificationAction.Process.{
  wording_for, submit, notify_traveler, act_on, act, process_confirmed_event,
}

module _ {F : Type 0} (outside : Outside F) (e : ConfirmedEvent) where
  -- The world in which the authority of the event is checked.
  abbrev pub checked : World F → World F
  checked w = record w { store = wait_for_commit e outside.waiting w.store }

  module _ (d : Decision F) (address : Option String) (w : World F) where
    pub notify_traveler-worded :
        (text : Explanation)
        → wording_for outside e w ≡ ok text
        → notify_traveler outside e d address w ≡ submit outside e (command_of e d address text) w
    unfolding notify_traveler
    notify_traveler-worded text worded = ground arith

    pub notify_traveler-raised :
        (error : Error)
        → wording_for outside e w ≡ raise error
        → notify_traveler outside e d address w ≡ (raise error, w)
    unfolding notify_traveler
    notify_traveler-raised error raised = ground arith

  module _ (d : Decision F) (w : World F) where
    pub act_on-push :
        outside.is_twilio ≡ false → act_on outside e d w ≡ notify_traveler outside e d none w
    unfolding act_on
    act_on-push push = ground arith

    pub act_on-sms :
        (phone : String)
        → outside.is_twilio ≡ true
        → outside.recipient e.trip_id ≡ some phone
        → act_on outside e d w ≡ notify_traveler outside e d (some phone) w
    unfolding act_on
    act_on-sms phone sms found = ground arith

  pub act-verified :
      (w : World F) (d : Decision F)
      → verified_decision e (checked w).store ≡ some d
      → act outside e w ≡ act_on outside e d (checked w)
  unfolding act
  act-verified w d verified = ground arith

  pub act-refused :
      (w : World F)
      → verified_decision e (checked w).store ≡ none
      → act outside e w ≡ (
        ok (record_of e ActionStatus.rejected outside.now (some "EVAL_AUTHORITY_MISMATCH")),
        checked w,
      )
  unfolding act
  act-refused w refused = ground arith

  -- An event that is refused, or was notified of before, leaves the world.
  pub process-cases :
      (w : World F)
      → ((process_confirmed_event outside e w).1 ≡ w)
        ⊎ (process_confirmed_event outside e w ≡ act outside e w)
  unfolding process_confirmed_event
  process-cases w = elim (Bool-cases (is_valid_event e)) [
    | inr invalid ↦ inl (ground arith)
    | inl valid ↦ elim (Option-cases (get_notification w.store e.decision_id)) [
      | inl fresh ↦ inr (ground arith)
      | inr (existing, found) ↦ elim (Bool-cases (is_done existing.status)) [
        | inl done ↦ inl (ground arith)
        | inr failed ↦ inr (ground arith)
      ]
    ]
  ]

  pub process-again :
      (w : World F) (r : NotificationRecord)
      → is_valid_event e ≡ true
      → get_notification w.store e.decision_id ≡ some r
      → is_done r.status ≡ true
      → process_confirmed_event outside e w ≡ (ok r, w)
  unfolding process_confirmed_event
  process-again w r valid found done = ground arith

  pub returned-valid :
      (w : World F) (r : NotificationRecord)
      → (process_confirmed_event outside e w).0 ≡ ok r
      → is_valid_event e ≡ true
  unfolding process_confirmed_event
  returned-valid w r returned = elim (Bool-cases (is_valid_event e)) [
    | inl valid ↦ valid
    | inr invalid ↦ absurd (ground arith)
  ]

  pub process-fresh :
      (w : World F)
      → is_valid_event e ≡ true
      → get_notification w.store e.decision_id ≡ none
      → process_confirmed_event outside e w ≡ act outside e w
  unfolding process_confirmed_event
  process-fresh w valid fresh = ground arith
