-- ===== src/EvalService/Delivery.antt =====
-- What the delivery of a candidate's message guarantees.
use mathlib.Core.Path.{subst}
use flight_multi_agent.Base.{
  ℕ, ◌≤◌, ◌≡◌, ◌≢◌, refl, sym, String, Bool, true, false, Option, none, some, arith, if◌then◌else◌,
  Option-cases, inl, inr, ◌⊎◌, ap, ◌∙◌,
}
use flight_multi_agent.Base.Text.{first_code}
use flight_multi_agent.Base.Assoc.{Dict}
use flight_multi_agent.Base.Result.{Result, Error, ok}
use flight_multi_agent.Base.Table.{Key, Table, get_item}
use flight_multi_agent.Clock.{IsoFormat}
use flight_multi_agent.Evidence.{Candidate, Decision, is_suppress}
use flight_multi_agent.Policy.{Policy}
use flight_multi_agent.Events.{
  ConfirmedEvent, Payload, candidate_payload, confirmed_payload, confirmed_outbox,
}
use flight_multi_agent.MonitoringStore.{
  Item, as_band, get_decision, get_confirmed_event, get_policy_band, band_key,
}
use flight_multi_agent.MonitoringStore.Outbox.{pending, record_key}
use flight_multi_agent.MonitoringStore.Outbox.Commit.{pk_band}
use flight_multi_agent.EventDelivery.{
  Message, Envelope, Settlement, acknowledged, retry_or_quarantine, quarantine_message,
}
use flight_multi_agent.EventDelivery.Quarantine.{get-quarantine_message, get-retry_or_quarantine}
use flight_multi_agent.EvalService.{
  Evaluation, evaluation_of, judged, event_for, Calls, process_candidate, process_candidate_message,
  settle, invalid,
}
use flight_multi_agent.EvalService.Stored.{left_by, left_by-decision, left_by-rises, left_by-event}
use flight_multi_agent.EvalService.Redelivery.{processed-again, processed-cases, fresh-decided}

-- What is owed for the first decision of a candidate, where `published` says whether its event
-- was published at once.
abbrev pub IsAnnounced :
    {F : Type 0} → Dict String → Bool → Candidate F → Decision F → Table (Item F) → Type 0
IsAnnounced headers published c d after =
    let r = confirmed_outbox headers (event_for c d) in
    (get_confirmed_event after c.candidate_id ≡ some (event_for c d))
    × (pending after (record_key r) ≡ (if published then none else some r))

Payload-cases :
    {F : Type 0} (payload : Payload F)
    → ((c : Candidate F) × (payload ≡ candidate_payload c))
      ⊎ ((e : ConfirmedEvent) × (payload ≡ confirmed_payload e))
Payload-cases (candidate_payload c) = inl (c, refl)
Payload-cases (confirmed_payload e) = inr (e, refl)

module _ {F : Type 0} (iso : IsoFormat) (policy : Policy)
    (advise : Candidate F → Decision F → Result (Option String)) (headers : Dict String)
    (calls : Calls) where
  module _ (maximum : ℕ) (now : String) (message : Message F) (table : Table (Item F)) where
    abbrev delivered : Settlement × Table (Item F)
    delivered = process_candidate_message iso policy advise headers calls maximum now message table

    refused-undecoded :
        message.envelope ≡ none
        → delivered ≡ invalid iso policy advise headers calls maximum now message table
    unfolding process_candidate_message
    refused-undecoded missing = ground arith

    refused-other :
        (envelope : Envelope F) (e : ConfirmedEvent)
        → message.envelope ≡ some envelope
        → envelope.payload ≡ confirmed_payload e
        → delivered ≡ invalid iso policy advise headers calls maximum now message table
    unfolding process_candidate_message
    refused-other envelope e decoded other = ground arith

    module _ (envelope : Envelope F) (c : Candidate F) (decoded : message.envelope ≡ some envelope)
        (carries : envelope.payload ≡ candidate_payload c) where
      abbrev run : Option Error × Table (Item F)
      run = process_candidate iso policy advise headers calls c table

      delivered-settle :
          delivered ≡ settle iso policy advise headers calls maximum now message envelope run
      unfolding process_candidate_message
      delivered-settle = ground arith

      -- A candidate that has a decision is not evaluated again: where the acknowledgement succeeds,
      -- its message is acknowledged and the store stays as it is, whatever the policy is by now.
      pub delivered-again :
          (d : Decision F)
          → get_decision table c.candidate_id ≡ some d
          → calls.acks ≡ true
          → delivered ≡ (acknowledged, table)
      unfolding settle
      delivered-again d found acks =
          let result = processed-again iso policy advise headers calls c table d found in
          let settled = delivered-settle in ground arith

      acknowledged-run : delivered.0 ≡ acknowledged → (run.0 ≡ none) × (delivered.1 ≡ run.1)
      unfolding settle retry_or_quarantine quarantine_message
      acknowledged-run acked =
          let settled = delivered-settle in
          elim (Option-cases run.0) [
            | inl returned ↦ (returned, ground arith)
            | inr (error, raised) ↦ absurd (ground arith)
          ]

      -- A message is acknowledged only if the store holds a decision for its candidate afterwards.
      pub acknowledged-decided :
          delivered.0 ≡ acknowledged
          → (d : Decision F) × (get_decision delivered.1 c.candidate_id ≡ some d)
      acknowledged-decided acked =
          let (returned, left) = acknowledged-run acked in
          elim (processed-cases iso policy advise headers calls c table) [
            | inl (kept, known) ↦
                let (d, found) = known returned in
                (d, ap (λ t. get_decision t c.candidate_id) (left ∙ kept) ∙ found)
            | inr (e, advice, fresh, stored) ↦ (
              e.decision,
              ap (λ t. get_decision t c.candidate_id) (left ∙ stored)
                  ∙ left_by-decision iso policy advise headers calls c e advice table,
            )
          ]

      -- The first decision of an acknowledged message is the policy's, and its commit is the whole
      -- change of the store.
      pub acknowledged-judged :
          get_decision table c.candidate_id ≡ none
          → delivered.0 ≡ acknowledged
          → (d : Decision F) → get_decision delivered.1 c.candidate_id ≡ some d
          → ((judged iso policy table c).0 ≡ ok d)
            × ((e : Evaluation F) × (advice : Option String) × (evaluation_of c d
                    (judged iso policy table c).1
                  ≡ e)
                × (delivered.1 ≡ left_by iso policy advise headers calls c e advice table))
      acknowledged-judged missing acked d found =
          let (returned, left) = acknowledged-run acked in
          elim (processed-cases iso policy advise headers calls c table) [
            | inl (kept, known) ↦ let (old, had) = known returned in absurd (ground arith)
            | inr (e, advice, fresh, stored) ↦
                let (made_d, decided, made) =
                  fresh-decided iso policy advise headers calls c table e fresh in
                let held = left_by-decision iso policy advise headers calls c e advice table in
                let own : some e.decision ≡ some d =
                  sym held
                  ∙ ap (λ t. get_decision t c.candidate_id) (sym (left ∙ stored))
                  ∙ found in
                let made_same = ap (λ x. x.decision) made in
                let equal : made_d ≡ d = ground arith in
                (
                  decided ∙ ap ok equal,
                  (
                    e,
                    advice,
                    ap (λ x. evaluation_of c x (judged iso policy table c).1) (sym equal) ∙ made,
                    left ∙ stored,
                  ),
                )
          ]

      -- Where a message is acknowledged for a candidate that had no decision, and the decision that
      -- the store then holds does not suppress, the store holds its confirmed event too, and the
      -- event is pending in the outbox unless it was published at once.
      pub acknowledged-IsAnnounced :
          get_decision table c.candidate_id ≡ none
          → delivered.0 ≡ acknowledged
          → (d : Decision F) → get_decision delivered.1 c.candidate_id ≡ some d
          → is_suppress d.verdict ≡ false
          → IsAnnounced headers calls.publishes c d delivered.1
      acknowledged-IsAnnounced missing acked d found loud =
          let (decided, (e, advice, made, same)) = acknowledged-judged missing acked d found in
          let event = ap (λ x. x.confirmed_event) (sym made) in
          let announced =
            left_by-event iso policy advise headers calls c e advice table (event_for c d)
              (event ∙ ground arith) in
          subst (IsAnnounced headers calls.publishes c d) (sym same) announced

    module _ (key : Key) (outside : first_code key.pk ≢ 68) where
      abbrev KeptOrEvaluated : Type 0
      KeptOrEvaluated =
          (get_item key delivered.1 ≡ get_item key table)
          ⊎ ((c : Candidate F) × (get_item key delivered.1
                ≡ get_item key (process_candidate iso policy advise headers calls c table).1))

      get-refused :
          delivered ≡ invalid iso policy advise headers calls maximum now message table
          → get_item key delivered.1 ≡ get_item key table
      unfolding invalid
      get-refused refused =
          let put =
            get-quarantine_message now table "travel-eval-agent-v1" message message.fallback none
              "CANDIDATE_EVENT_INVALID" key outside in
          ap (λ r. get_item key r.1) refused ∙ put

      get-evaluated :
          (envelope : Envelope F) (c : Candidate F)
          → message.envelope ≡ some envelope
          → envelope.payload ≡ candidate_payload c
          → get_item key delivered.1
            ≡ get_item key (process_candidate iso policy advise headers calls c table).1
      unfolding settle
      get-evaluated envelope c decoded carries =
          let run_c = process_candidate iso policy advise headers calls c table in
          let settled = delivered-settle envelope c decoded carries in
          let retried =
            get-retry_or_quarantine now run_c.1 "travel-eval-agent-v1" message envelope.event_id
              (some envelope.payload) "EVALUATION_FAILED" key outside maximum in
          elim (Option-cases run_c.0) [
            | inl returned ↦ ground arith
            | inr (error, raised) ↦ ground arith
          ]

      -- Outside the dead letters, the store is as it was or as an evaluation left it.
      get-delivered : KeptOrEvaluated
      get-delivered = elim (Option-cases message.envelope) [
        | inl missing ↦ inl (get-refused (refused-undecoded missing))
        | inr (envelope, decoded) ↦ elim (Payload-cases envelope.payload) [
          | inl (c, carries) ↦ inr (c, get-evaluated envelope c decoded carries)
          | inr (e, other) ↦ inl (get-refused (refused-other envelope e decoded other))
        ]
      ]

    -- The band that the store holds for an episode is never lost and never falls, whatever
    -- message is delivered and whichever calls fail.
    pub delivered-rises :
        (episode : String) (b : ℕ)
        → get_policy_band table episode ≡ some b
        → (top : ℕ) × (get_policy_band delivered.1 episode ≡ some top) × (b ≤ top)
    unfolding get_policy_band
    delivered-rises episode b held =
        let key = band_key episode in
        let starts = pk_band episode in
        elim (get-delivered key (omega arith)) [
          | inl kept ↦ (b, ap as_band kept ∙ held, omega arith)
          | inr (c, left) ↦ elim (processed-cases iso policy advise headers calls c table) [
            | inl (kept, known) ↦
                (b, ap as_band left ∙ ap (λ t. as_band (get_item key t)) kept ∙ held, omega arith)
            | inr (e, advice, fresh, stored) ↦
                let (top, rises, above) =
                  left_by-rises iso policy advise headers calls c e advice table episode b fresh
                    held in
                (top, ap as_band left ∙ ap (λ t. as_band (get_item key t)) stored ∙ rises, above)
          ]
        ]
