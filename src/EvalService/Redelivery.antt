-- ===== src/EvalService/Redelivery.antt =====
-- Deliveries of a candidate's message, again or with failures on the way.
use flight_multi_agent.Base.{
  ℕ, ◌≤◌, ◌≡◌, sym, String, false, Option, none, some, [], ◌∷◌, arith, if◌then◌else◌, Option-cases,
  Bool-cases, inl, inr, ◌⊎◌, ap, ◌∙◌,
}
use flight_multi_agent.Base.Text.{fstring, remove_prefix}
use flight_multi_agent.Base.Assoc.{Dict, lookup}
use flight_multi_agent.Base.Result.{Result, ok, raise, Result-cases, Error, bus_error}
use flight_multi_agent.Base.Table.{Table}
use flight_multi_agent.Clock.{IsoFormat}
use flight_multi_agent.Evidence.{Candidate, Decision}
use flight_multi_agent.Policy.{Policy}
use flight_multi_agent.Policy.History.{evaluate_rises, band_of}
use text.Mathlib.TextEquality.{eq_iff}
use flight_multi_agent.MonitoringStore.{Item, get_decision, get_policy_band}
use flight_multi_agent.EvalService.{
  Evaluation, episode_of, stored_state, evaluation_of, judged, Calls, evaluate_candidate,
  fresh_evaluation, commit_evaluation, publish_confirmed, process_candidate, commit_with,
}

module _ {F : Type 0} (iso : IsoFormat) (policy : Policy)
    (advise : Candidate F → Decision F → Result (Option String)) (headers : Dict String)
    (calls : Calls) (c : Candidate F) (table : Table (Item F)) where
  abbrev pub processed : Option Error × Table (Item F)
  processed = process_candidate iso policy advise headers calls c table

  -- The store after a delivery that commits the evaluation.
  abbrev stored : Evaluation F → Option String → Table (Item F)
  stored e advice =
      publish_confirmed iso policy advise headers calls e.confirmed_event
        (commit_evaluation headers c.candidate_id e advice table)

  abbrev IsKept : Type 0
  IsKept =
      (processed.1 ≡ table)
      × (processed.0 ≡ none → (d : Decision F) × (get_decision table c.candidate_id ≡ some d))

  abbrev IsCommitted : Type 0
  IsCommitted =
      (e : Evaluation F) × (advice : Option String) × (fresh_evaluation iso policy table c ≡ ok e)
      × (processed.1 ≡ stored e advice)

  pub processed-again :
      (d : Decision F)
      → get_decision table c.candidate_id ≡ some d
      → processed ≡ (if calls.acks then none else some bus_error, table)
  unfolding process_candidate evaluate_candidate
  processed-again d found = ground arith

  processed-raised :
      (error : Error)
      → get_decision table c.candidate_id ≡ none
      → fresh_evaluation iso policy table c ≡ raise error
      → processed ≡ (some error, table)
  unfolding process_candidate evaluate_candidate
  processed-raised error missing raised = ground arith

  processed-fresh :
      (e : Evaluation F)
      → get_decision table c.candidate_id ≡ none
      → fresh_evaluation iso policy table c ≡ ok e
      → e.already_processed ≡ false
      → processed ≡ commit_with iso policy advise headers calls c e (advise c e.decision) table
  unfolding process_candidate evaluate_candidate
  processed-fresh e missing fresh first = ground arith

  -- An evaluation that is returned is the policy's decision.
  pub fresh-decided :
      (e : Evaluation F)
      → fresh_evaluation iso policy table c ≡ ok e
      → (d : Decision F) × ((judged iso policy table c).0 ≡ ok d)
        × (evaluation_of c d (judged iso policy table c).1 ≡ e)
  unfolding fresh_evaluation
  fresh-decided e fresh = elim (Result-cases (judged iso policy table c).0) [
    | inl (error, raised) ↦ absurd (ground arith)
    | inr (d, decided) ↦ (d, decided, ground arith)
  ]

  fresh-cases :
      (e : Evaluation F)
      → get_decision table c.candidate_id ≡ none
      → fresh_evaluation iso policy table c ≡ ok e
      → IsKept ⊎ IsCommitted
  unfolding commit_with
  fresh-cases e missing fresh =
      let result =
        processed-fresh e missing fresh
          (ap (λ x. x.already_processed) (sym (fresh-decided e fresh).2)) in
      elim (Result-cases (advise c e.decision)) [
        | inl (error, raised) ↦ inl (ground arith, λ h. absurd (ground arith))
        | inr (advice, advised) ↦ elim (Bool-cases calls.transacts) [
          | inl done ↦ inr (e, advice, fresh, ground arith)
          | inr refused ↦ inl (ground arith, λ h. absurd (ground arith))
        ]
      ]

  pub processed-cases : IsKept ⊎ IsCommitted
  processed-cases = elim (Option-cases (get_decision table c.candidate_id)) [
    | inr (d, found) ↦ let result = processed-again d found in inl (ground arith, λ h. (d, found))
    | inl missing ↦ elim (Result-cases (fresh_evaluation iso policy table c)) [
      | inl (error, raised) ↦
          let result = processed-raised error missing raised in
          inl (ground arith, λ h. absurd (ground arith))
      | inr (e, fresh) ↦ fresh-cases e missing fresh
    ]
  ]

  abbrev decision_name : String
  decision_name = fstring ("decision-" ∷ remove_prefix c.candidate_id "cand-" ∷ [])

  stored_state-band :
      (b : ℕ)
      → get_policy_band table (episode_of c) ≡ some b
      → band_of (stored_state table (episode_of c)) (episode_of c) ≡ some b
  unfolding lookup
  stored_state-band b held = ground (arith, eq_iff (episode_of c) (episode_of c))

  -- The band that an evaluation commits is not below the stored one.
  pub notified-rises :
      (e : Evaluation F) (b : ℕ)
      → fresh_evaluation iso policy table c ≡ ok e
      → get_policy_band table (episode_of c) ≡ some b
      → (top : ℕ) × (e.notified_band ≡ some top) × (b ≤ top)
  notified-rises e b fresh held =
      let (d, decided, made) = fresh-decided e fresh in
      let state = stored_state table (episode_of c) in
      let (top, rises, above) =
        evaluate_rises iso policy c state decision_name (episode_of c) b
          (stored_state-band b held) in
      (top, ap (λ x. x.notified_band) (sym made) ∙ rises, above)
