-- ===== src/Pipeline/Handover.antt =====
-- The event that the evaluation service publishes, before the notification action service.
use text.Mathlib.TextEquality.{eq_iff}
use flight_multi_agent.Base.{
  ℕ, ◌≡◌, refl, String, true, false, Option, none, some, List, [], ◌∷◌, arith,
}
use flight_multi_agent.Base.Assoc.{Dict}
use flight_multi_agent.Base.Result.{Result}
use flight_multi_agent.Base.Table.{Table}
use flight_multi_agent.Clock.{IsoFormat}
use flight_multi_agent.Evidence.{Candidate, Decision, Verdict, is_suppress}
use flight_multi_agent.Events.{ConfirmedEvent, candidate_payload}
use flight_multi_agent.Policy.{Policy}
use flight_multi_agent.Policy.Rules.{fields-evaluate}
use flight_multi_agent.MonitoringStore.{Item, get_decision}
use flight_multi_agent.EventDelivery.{Message, Envelope, acknowledged}
use flight_multi_agent.EvalService.{Calls, process_candidate_message, event_for}
use flight_multi_agent.EvalService.Delivery.{acknowledged-judged, acknowledged-IsAnnounced}
use flight_multi_agent.NotificationAction.{
  decision_matches, event_matches, verified_decision, same_codes, same_verdict,
}

same_codes_refl : (codes : List String) → same_codes codes codes ≡ true
same_codes_refl [] = refl
same_codes_refl (c ∷ codes) = ground (arith, eq_iff c c, same_codes_refl codes)

same_verdict_refl : (v : Verdict) → same_verdict v v ≡ true
same_verdict_refl v = ground arith

event_matches_refl : (e : ConfirmedEvent) → event_matches e e ≡ true
unfolding event_matches
event_matches_refl e = ground (
  arith,
  eq_iff e.candidate_id e.candidate_id,
  eq_iff e.decision_id e.decision_id,
  eq_iff e.trip_id e.trip_id,
  eq_iff e.leg_id e.leg_id,
  same_verdict_refl e.verdict,
  same_codes_refl e.reason_codes,
)

decision_matches-event_for :
    {F : Type 0} (c : Candidate F) (d : Decision F)
    → d.candidate_id ≡ c.candidate_id
    → d.trip_id ≡ c.trip_id
    → d.leg_id ≡ c.leg_id
    → decision_matches (event_for c d) d ≡ true
unfolding decision_matches
decision_matches-event_for c d candidates trips legs = ground (
  arith,
  eq_iff d.candidate_id c.candidate_id,
  eq_iff d.decision_id d.decision_id,
  eq_iff d.trip_id c.trip_id,
  eq_iff d.leg_id c.leg_id,
  same_verdict_refl d.verdict,
  same_codes_refl d.reason_codes,
)

module _ {F : Type 0} (iso : IsoFormat) (policy : Policy)
    (advise : Candidate F → Decision F → Result (Option String)) (headers : Dict String)
    (calls : Calls) (maximum : ℕ) (now : String) (message : Message F) (table : Table (Item F))
    (envelope : Envelope F) (c : Candidate F) (decoded : message.envelope ≡ some envelope)
    (carries : envelope.payload ≡ candidate_payload c) where
  -- Where the evaluation service acknowledges a candidate that had no decision, and the decision
  -- does not suppress, the notification action service finds the authority of the confirmed event
  -- in the store at once, and takes it to be that decision.
  pub verified-published :
      get_decision table c.candidate_id ≡ none
      → let after =
          process_candidate_message iso policy advise headers calls maximum now message table in
        after.0 ≡ acknowledged
        → (d : Decision F) → get_decision after.1 c.candidate_id ≡ some d
        → is_suppress d.verdict ≡ false
        → verified_decision (event_for c d) after.1 ≡ some d
  unfolding verified_decision
  verified-published missing acked d found loud =
      let (decided, rest) =
        acknowledged-judged iso policy advise headers calls maximum now message table envelope c
          decoded carries missing acked d found in
      let (ids, candidates, trips, legs, times, versions) =
        fields-evaluate iso policy c _ _ d decided in
      let (announced, waits) =
        acknowledged-IsAnnounced iso policy advise headers calls maximum now message table envelope
          c decoded carries missing acked d found loud in
      let matches = decision_matches-event_for c d candidates trips legs in
      let own = event_matches_refl (event_for c d) in ground arith
