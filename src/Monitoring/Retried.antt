-- ===== src/Monitoring/Retried.antt =====
-- The poll after one whose publication failed.
use flight_multi_agent.Base.{◌≡◌, ap, ◌∙◌, true, Option, some, [], ◌∷◌, ◌++◌, arith, inl, inr}
use flight_multi_agent.Base.Result.{ok}
use flight_multi_agent.Clock.{IsoFormat}
use flight_multi_agent.Evidence.{Candidate}
use flight_multi_agent.Observation.{Observation, Floats}
use flight_multi_agent.MonitoringStore.{WeatherReport}
use flight_multi_agent.Monitoring.{PollRequest, PollOutcome, fetched, Outside, World}
use flight_multi_agent.Monitoring.Judge.{PollEvidence, flight_of}
use flight_multi_agent.Monitoring.Poll.{
  emit, report, compare_evidence, is_stale, with_stale, evaluate_delta,
}
use flight_multi_agent.Monitoring.Steps.{IsReported, compare_evidence-cases, evaluate_delta-cases}
use flight_multi_agent.Monitoring.Persisted.{held_flight, held_weather}
use flight_multi_agent.Monitoring.Published.{
  report-IsReportOf, emit-published, evaluate_delta-failed,
}

module _ {F : Type 0} (request : PollRequest) (iso : IsoFormat) (floats : Floats F)
    (provided : Observation F) (current : Option (WeatherReport F)) where
  -- Two stores with the same evidence of the leg are compared with in the same way.
  compared-again :
      (outside : Outside F) (w again : World F) (previous : Observation F) (stale : _)
      → held_flight request again.store ≡ some previous
      → held_weather request again.store ≡ held_weather request w.store
      → is_stale iso (flight_of request provided) previous ≡ ok stale
      → evaluate_delta outside request iso floats (fetched provided current) again
        ≡ compare_evidence outside request iso floats
            (with_stale request previous (flight_of request provided) current w stale)
            again
  unfolding evaluate_delta
  compared-again outside w again previous stale held same told = ground arith

  reported-again :
      (outside : Outside F) (e : PollEvidence F) (w again : World F)
      (reported : IsReported outside request iso floats e w)
      → (working : Outside F)
      → compare_evidence working request iso floats e again ≡ (
        ok (report working request e reported.candidate again).0,
        (report working request e reported.candidate again).1,
      )
  unfolding compare_evidence
  reported-again outside e w again reported working =
      let fields = reported.some_fields in let built = reported.built in ground arith

  -- A candidate whose publication fails is published by the next poll: where that poll sees the same
  -- evidence, the state is as the failed one left it, and the store and the event bus work again, it
  -- publishes the candidate of the failed one.
  pub evaluate_delta-retried :
      (outside working : Outside F) (w : World F) (o : PollOutcome F)
      → (evaluate_delta outside request iso floats (fetched provided current) w).0 ≡ ok o
      → o.error_code ≡ some "CANDIDATE_EVENT_PUBLISH_FAILED"
      → working.writes ≡ true
      → working.publishes ≡ true
      → working.deletes ≡ true
      → let after = (evaluate_delta outside request iso floats (fetched provided current) w).1 in
        let again = evaluate_delta working request iso floats (fetched provided current) after in
        (c : Candidate F) × (o.candidate ≡ some c) × (again.1.published ≡ after.published ++ c ∷ [])
  unfolding emit
  evaluate_delta-retried outside working w o returned error writes publishes deletes =
      let flight = flight_of request provided in
      let after = (evaluate_delta outside request iso floats (fetched provided current) w).1 in
      let (flight_kept, weather_kept) =
        evaluate_delta-failed outside request iso floats provided current w o returned error in
      elim (evaluate_delta-cases outside request iso floats provided current w) [
        | inl baseline ↦ let went = baseline.outcome in absurd (ground arith)
        | inr (inl compared) ↦
            let e = with_stale request compared.previous flight current w compared.stale in
            let went = compared.outcome in
            elim (compare_evidence-cases outside request iso floats e w) [
              | inl quiet ↦ let then_quiet = quiet.outcome in absurd (ground arith)
              | inr (inl reported) ↦
                  let c = reported.candidate in
                  let first = report-IsReportOf outside request e c w in
                  let its = first.its_candidate in
                  let then_reported = reported.outcome in
                  let one =
                    compared-again working w after compared.previous compared.stale
                      (flight_kept ∙ compared.held) weather_kept compared.told in
                  let two = reported-again outside e w after reported working in
                  let second = report-IsReportOf working request e c after in
                  let emitted = emit-published working c after (ground arith) in
                  let same = second.its_published in
                  (c, ground arith, ap (λ a. a.1.published) (one ∙ two) ∙ same ∙ emitted)
              | inr (inr raised) ↦ let then_raised = raised.outcome in absurd (ground arith)
            ]
        | inr (inr untimed) ↦ let went = untimed.outcome in absurd (ground arith)
      ]
