-- ===== src/NotificationAction/Authority.antt =====
-- Every command is backed by a decision that the store holds.
use mathlib.Core.Path.{subst}
use text.Mathlib.TextEquality.{eq_iff}
use flight_multi_agent.Base.{
  ◌≡◌, refl, ap, ◌∙◌, sym, ◌⊎◌, inl, inr, String, true, false, Option, none, some, List, [], ◌∷◌,
  ◌++◌, arith, Option-cases, Bool-cases,
}
use flight_multi_agent.Base.Result.{Result-cases}
use flight_multi_agent.Base.Table.{Table}
use flight_multi_agent.Evidence.{Decision, Verdict, is_suppress}
use flight_multi_agent.Events.{ConfirmedEvent, Explanation, NotificationRecord}
use flight_multi_agent.MonitoringStore.{Item, get_decision, get_confirmed_event}
use flight_multi_agent.NotificationAction.Steps.{
  checked, notify_traveler-worded, notify_traveler-raised, act_on-push, act_on-sms, act-verified,
  act-refused, process-cases,
}
use flight_multi_agent.NotificationAction.{
  Outside, World, same_verdict, same_codes, decision_matches, verified_decision, command_of,
  is_valid_command,
}
use flight_multi_agent.NotificationAction.Process.{
  wording_for, save, submit, notify_traveler, act_on, act, process_confirmed_event,
}

same_verdict-eq : (a b : Verdict) → same_verdict a b ≡ true → a ≡ b
same_verdict-eq a b same = ground arith

same_codes-eq : (others bs : List String) → same_codes others bs ≡ true → others ≡ bs
same_codes-eq [] [] same = refl
same_codes-eq [] (b ∷ bs) same = absurd (ground arith)
same_codes-eq (a ∷ others) [] same = absurd (ground arith)
same_codes-eq (a ∷ others) (b ∷ bs) same = ground (arith, eq_iff a b, same_codes-eq others bs)

-- The store holds a decision of the event's candidate that agrees with the event and does not
-- suppress, and a confirmed event.
pub record IsBacked {F : Type 0} (e : ConfirmedEvent) (d : Decision F) (table : Table (Item F))
    : Type 0 where
  pub stored : ConfirmedEvent
  pub decided : get_decision table e.candidate_id ≡ some d
  pub confirmed : get_confirmed_event table e.candidate_id ≡ some stored
  pub same_decision : d.decision_id ≡ e.decision_id
  pub same_trip : d.trip_id ≡ e.trip_id
  pub same_leg : d.leg_id ≡ e.leg_id
  pub same_verdicts : d.verdict ≡ e.verdict
  pub same_reasons : d.reason_codes ≡ e.reason_codes
  pub loud : is_suppress d.verdict ≡ false

module _ {F : Type 0} (e : ConfirmedEvent) where
  decision_matches-fields :
      (d : Decision F)
      → decision_matches e d ≡ true
      → (d.decision_id ≡ e.decision_id)
        × (d.trip_id ≡ e.trip_id)
        × (d.leg_id ≡ e.leg_id)
        × (d.verdict ≡ e.verdict)
        × (d.reason_codes ≡ e.reason_codes)
  unfolding decision_matches
  decision_matches-fields d matches =
      let verdicts = same_verdict-eq d.verdict e.verdict in
      let codes = same_codes-eq d.reason_codes e.reason_codes in
      (
        ground (arith, eq_iff d.decision_id e.decision_id),
        ground (arith, eq_iff d.trip_id e.trip_id),
        ground (arith, eq_iff d.leg_id e.leg_id),
        verdicts (ground arith),
        codes (ground arith),
      )

  pub verified-IsBacked :
      (table : Table (Item F)) (d : Decision F)
      → verified_decision e table ≡ some d
      → IsBacked e d table
  unfolding verified_decision
  verified-IsBacked table d verified = elim (Option-cases (get_decision table e.candidate_id)) [
    | inl missing ↦ absurd (ground arith)
    | inr (found, decided) ↦ elim (Option-cases (get_confirmed_event table e.candidate_id)) [
      | inl missing ↦ absurd (ground arith)
      | inr (stored, confirmed) ↦
          let same : found ≡ d = ground arith in
          let (ids, trips, legs, verdicts, reasons) = decision_matches-fields d (ground arith) in
          record {
            stored = stored;
            decided = ground arith;
            confirmed = confirmed;
            same_decision = ids;
            same_trip = trips;
            same_leg = legs;
            same_verdicts = verdicts;
            same_reasons = reasons;
            loud = ground arith;
          }
    ]
  ]

module _ {F : Type 0} (outside : Outside F) (e : ConfirmedEvent) where
  -- The tool was given no command, or one command of the event and the decision.
  abbrev pub SendsFor : Decision F → World F → World F → Type 0
  SendsFor d w after =
      (after.sent ≡ w.sent)
      ⊎ ((address : Option String) × (wording : Explanation) × (after.sent
            ≡ w.sent ++ command_of e d address wording ∷ []))

  sent-save : (r : NotificationRecord) (w : World F) → (save outside e r w).1.sent ≡ w.sent
  unfolding save
  sent-save r w = ground arith

  sent-submit :
      (d : Decision F) (address : Option String) (wording : Explanation) (w : World F)
      → SendsFor d w (submit outside e (command_of e d address wording) w).1
  unfolding submit save
  sent-submit d address wording w =
      let command = command_of e d address wording in
      elim (Bool-cases (is_valid_command command)) [
        | inl valid ↦ inr (address, wording, ground arith)
        | inr invalid ↦ inl (ground arith)
      ]

  sent-notify_traveler :
      (d : Decision F) (address : Option String) (w : World F)
      → SendsFor d w (notify_traveler outside e d address w).1
  sent-notify_traveler d address w = elim (Result-cases (wording_for outside e w)) [
    | inl (error, raised) ↦
        let result = notify_traveler-raised outside e d address w error raised in inl (ground arith)
    | inr (text, worded) ↦
        subst (λ r. SendsFor d w r.1)
          (sym (notify_traveler-worded outside e d address w text worded))
          (sent-submit d address text w)
  ]

  sent-act_on : (d : Decision F) (w : World F) → SendsFor d w (act_on outside e d w).1
  unfolding act_on save
  sent-act_on d w = elim (Bool-cases outside.is_twilio) [
    | inr push ↦
        subst (λ r. SendsFor d w r.1) (sym (act_on-push outside e d w push))
          (sent-notify_traveler d none w)
    | inl sms ↦ elim (Option-cases (outside.recipient e.trip_id)) [
      | inl missing ↦ inl (ground arith)
      | inr (phone, found) ↦
          subst (λ r. SendsFor d w r.1) (sym (act_on-sms outside e d w phone sms found))
            (sent-notify_traveler d (some phone) w)
    ]
  ]

  sent-act :
      (w : World F)
      → ((act outside e w).1.sent ≡ w.sent)
        ⊎ ((d : Decision F) × IsBacked e d (checked outside e w).store
            × SendsFor d w (act outside e w).1)
  sent-act w = elim (Option-cases (verified_decision e (checked outside e w).store)) [
    | inl refused ↦ let result = act-refused outside e w refused in inl (ground arith)
    | inr (d, verified) ↦ inr (
      d,
      verified-IsBacked e (checked outside e w).store d verified,
      subst (λ r. SendsFor d w r.1) (sym (act-verified outside e w d verified))
          (sent-act_on d (checked outside e w)),
    )
  ]

  -- An event is either processed without a command to the notification tool, or with one command
  -- for one decision, which the store holds beside a confirmed event when its authority is checked,
  -- which does not suppress, and which agrees with the event in its ids, its verdict and its
  -- reasons. The command carries the event's idempotency key.
  pub process-IsBacked :
      (w : World F)
      → ((process_confirmed_event outside e w).1.sent ≡ w.sent)
        ⊎ ((d : Decision F) × IsBacked e d (checked outside e w).store
            × ((address : Option String) × (wording : Explanation) × ((process_confirmed_event
                    outside e w).1.sent
                  ≡ w.sent ++ command_of e d address wording ∷ [])))
  process-IsBacked w = elim (process-cases outside e w) [
    | inl kept ↦ inl (ap (λ x. x.sent) kept)
    | inr acted ↦ elim (sent-act w) [
      | inl silent ↦ inl (ap (λ r. r.1.sent) acted ∙ silent)
      | inr (d, backed, sends) ↦ elim sends [
        | inl silent ↦ inl (ap (λ r. r.1.sent) acted ∙ silent)
        | inr (address, wording, spoke) ↦
            inr (d, backed, (address, wording, ap (λ r. r.1.sent) acted ∙ spoke))
      ]
    ]
  ]
