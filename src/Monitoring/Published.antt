-- ===== src/Monitoring/Published.antt =====
-- The candidate of a poll: what makes it, and that it is not lost.
use flight_multi_agent.Base.{
  ◌≡◌, ◌⊎◌, refl, ap, sym, ◌∙◌, String, true, Option, none, some, List, [], ◌∷◌, ◌++◌, arith,
  Bool-cases, Option-cases, inl, inr,
}
use mathlib.Core.Path.{subst}
use flight_multi_agent.Base.Table.{Table, get_item-put_item, key_eq_refl}
use flight_multi_agent.Base.Result.{ok, >>=-eq-ok, ok-ensures}
use flight_multi_agent.Clock.{IsoFormat}
use flight_multi_agent.Evidence.{Candidate, Decision, Field, is_search}
use flight_multi_agent.Events.{candidate_outbox}
use flight_multi_agent.Observation.{
  Observation, Floats, operational_delay, classify_candidate, candidate_score,
}
use flight_multi_agent.MonitoringStore.{
  Item, get_confirmed_event, WeatherReport, get_last_observation, get_last_weather, weather_key,
}
use flight_multi_agent.MonitoringStore.Outbox.{
  put_candidate_with_outbox, pending, record_key, outbox_item, put_candidate,
}
use flight_multi_agent.Monitoring.{PollRequest, PollOutcome, fetched, Outside, World}
use flight_multi_agent.Monitoring.Judge.{
  PollEvidence, flight_of, fields_of, candidate_of, effective_flight, weather_of, newest_weather,
  confidence_of,
}
use flight_multi_agent.Monitoring.Poll.{
  emit, report, after_decision, compare_evidence, with_stale, evaluate_delta,
}
use flight_multi_agent.Monitoring.Steps.{compare_evidence-cases, evaluate_delta-cases}
use flight_multi_agent.Monitoring.Emitted.{get_item-emit}
use flight_multi_agent.Monitoring.Persisted.{held_flight, held_weather, flight_key}

module _ {F : Type 0} (outside : Outside F) where
  pending-put_candidate_with_outbox :
      (c : Candidate F) (table : Table (Item F))
      → let r = candidate_outbox outside.active_headers c in
        pending (put_candidate_with_outbox table outside.active_headers c) (record_key r) ≡ some r
  unfolding put_candidate_with_outbox
  pending-put_candidate_with_outbox c table =
      let r = candidate_outbox outside.active_headers c in
      let got =
        get_item-put_item (record_key r) (record_key r) (outbox_item r) (put_candidate table c) in
      ground (arith, key_eq_refl (record_key r))

  -- The event of a candidate was published, or its outbox record is pending.
  abbrev pub IsCarried : Candidate F → World F → World F → Type 0
  IsCarried c before after =
      let r = candidate_outbox outside.active_headers c in
      (after.published ≡ before.published ++ c ∷ [])
      ⊎ ((after.published ≡ before.published) × (pending after.store (record_key r) ≡ some r))

  emit-IsCarried :
      (c : Candidate F) (w : World F) → outside.writes ≡ true → IsCarried c w (emit outside c w).1
  unfolding emit
  emit-IsCarried c w writes =
      let put = pending-put_candidate_with_outbox c w.store in
      elim (Bool-cases outside.publishes) [
        | inl sent ↦ inl (ground arith)
        | inr lost ↦ inr (ground arith, ground arith)
      ]

  pub emit-published :
      (c : Candidate F) (w : World F)
      → (emit outside c w).0 ≡ true
      → (emit outside c w).1.published ≡ w.published ++ c ∷ []
  unfolding emit
  emit-published c w done = ground arith

  module _ (request : PollRequest) where
    after_decision-same :
        (id : String) (reading : Option (Decision F) × Table (Item F)) (o : PollOutcome F)
        → ((after_decision outside request id reading o).0.candidate ≡ o.candidate)
          × ((after_decision outside request id reading o).0.error_code ≡ o.error_code)
    unfolding after_decision
    after_decision-same id (none, table) o = (refl, refl)
    after_decision-same id (some d, table) o = elim (Option-cases (get_confirmed_event table id)) [
      | inl missing ↦ (ground arith, ground arith)
      | inr (e, present) ↦ elim (Bool-cases (is_search d.verdict)) [
        | inl searching ↦ (ground arith, ground arith)
        | inr telling ↦ (ground arith, ground arith)
      ]
    ]

    abbrev pub publish_failed : Option String
    publish_failed = some "CANDIDATE_EVENT_PUBLISH_FAILED"

    -- What a report has of its publication.
    pub record IsReportOf (c : Candidate F) (w : World F) (reported : PollOutcome F × World F)
        : Type 0 where
      pub its_candidate : reported.0.candidate ≡ some c
      pub its_published : reported.1.published ≡ (emit outside c w).1.published
      pub its_end :
          (((emit outside c w).0 ≡ true) × (reported.0.error_code ≡ none))
          ⊎ ((reported.0.error_code ≡ publish_failed) × (reported.1 ≡ (emit outside c w).1))

    pub report-IsReportOf :
        (e : PollEvidence F) (c : Candidate F) (w : World F)
        → IsReportOf c w (report outside request e c w)
    unfolding report
    report-IsReportOf e c w = elim (Bool-cases (emit outside c w).0) [
      | inl done ↦ rw done (record {
        its_candidate = (after_decision-same c.candidate_id _ _).0;
        its_published = refl;
        its_end = inl (done, (after_decision-same c.candidate_id _ _).1);
      })
      | inr failed ↦
          rw failed
            (record { its_candidate = refl; its_published = refl; its_end = inr (refl, refl) })
    ]

    report-IsCarried :
        (e : PollEvidence F) (c : Candidate F) (w : World F)
        → outside.writes ≡ true
        → IsCarried c w (report outside request e c w).1
    report-IsCarried e c w writes =
        let reported = report-IsReportOf e c w in
        let emitted = emit-IsCarried c w writes in
        let same = reported.its_published in
        elim reported.its_end [
          | inl (done, no_error) ↦ inl (same ∙ emit-published c w done)
          | inr (error, left) ↦ subst (IsCarried c w) (sym left) emitted
        ]

    module _ (iso : IsoFormat) (floats : Floats F) where
      -- The candidate is of the request's leg, and names the fields that have changed.
      abbrev IsCandidateOf : PollEvidence F → Candidate F → Type 0
      IsCandidateOf e c =
          (c.trip_id ≡ request.trip_id)
          × (c.leg_id ≡ request.leg_id)
          × (c.delta.changed_fields ≡ fields_of e)

      -- A poll's candidate, for a change of at least one field, with what became of its event.
      pub record IsCarriedChange (e : PollEvidence F) (w after : World F) (o : PollOutcome F)
          : Type 0 where
        pub candidate : Candidate F
        pub its_candidate : o.candidate ≡ some candidate
        pub candidate_of_it : IsCandidateOf e candidate
        pub first : Field
        pub later : List Field
        pub some_fields : fields_of e ≡ first ∷ later
        pub carried : IsCarried candidate w after

      candidate_of-IsCandidateOf :
          (e : PollEvidence F) (c : Candidate F)
          → candidate_of iso floats request e ≡ ok c
          → IsCandidateOf e c
      unfolding candidate_of
      candidate_of-IsCandidateOf e c built =
          let (before, _, a) = >>=-eq-ok (operational_delay iso e.previous_flight) _ built in
          let (after, _, b) = >>=-eq-ok (operational_delay iso (effective_flight e)) _ a in
          let (category, _, d) =
            >>=-eq-ok
              (classify_candidate iso
                (record (effective_flight e) {
                  weather = some (weather_of (newest_weather iso floats request e));
                })
                (fields_of e) none none)
              _ b in
          let (score, _, last) =
            >>=-eq-ok
              (candidate_score floats category after (confidence_of iso floats request category e))
              _ d in
          ok-ensures (IsCandidateOf e) (refl, refl, refl) last

      compare_evidence-carries :
          (e : PollEvidence F) (w : World F) (o : PollOutcome F)
          → outside.writes ≡ true
          → (compare_evidence outside request iso floats e w).0 ≡ ok o
          → let after = compare_evidence outside request iso floats e w in
            ((o.candidate ≡ none) × (after.1.published ≡ w.published))
            ⊎ IsCarriedChange e w after.1 o
      compare_evidence-carries e w o writes returned =
          elim (compare_evidence-cases outside request iso floats e w) [
            | inl quiet ↦ let went = quiet.outcome in inl (ground arith, ground arith)
            | inr (inl reported) ↦
                let c = reported.candidate in
                let went = reported.outcome in
                let told = report-IsReportOf e c w in
                let carried = report-IsCarried e c w writes in
                let same = told.its_candidate in
                inr (record {
                  candidate = c;
                  its_candidate = ground arith;
                  candidate_of_it = candidate_of-IsCandidateOf e c reported.built;
                  first = reported.first;
                  later = reported.later;
                  some_fields = reported.some_fields;
                  carried = subst (IsCarried c w) (ap (λ a. a.1) (sym went)) carried;
                })
            | inr (inr raised) ↦ let went = raised.outcome in absurd (ground arith)
          ]

      -- A poll that returns without a candidate publishes nothing. A poll with a candidate has found
      -- an earlier observation of the leg; the candidate is of the leg, and names at least one
      -- field; and its event is published, or else nothing is, and its record is pending in the
      -- outbox. The store takes the candidate with its record.
      pub evaluate_delta-carries :
          (provided : Observation F) (current : Option (WeatherReport F)) (w : World F)
          (o : PollOutcome F)
          → outside.writes ≡ true
          → (evaluate_delta outside request iso floats (fetched provided current) w).0 ≡ ok o
          → let after = evaluate_delta outside request iso floats (fetched provided current) w in
            ((o.candidate ≡ none) × (after.1.published ≡ w.published))
            ⊎ ((e : PollEvidence F) × (held_flight request w.store ≡ some e.previous_flight)
                × (e.flight ≡ flight_of request provided)
                × IsCarriedChange e w after.1 o)
      evaluate_delta-carries provided current w o writes returned =
          let flight = flight_of request provided in
          elim (evaluate_delta-cases outside request iso floats provided current w) [
            | inl baseline ↦ let went = baseline.outcome in inl (ground arith, ground arith)
            | inr (inl compared) ↦
                let e = with_stale request compared.previous flight current w compared.stale in
                let went = compared.outcome in
                elim (compare_evidence-carries e w o writes (ground arith)) [
                  | inl (no_candidate, same) ↦ inl (no_candidate, ground arith)
                  | inr carried ↦ inr (
                    e,
                    compared.held,
                    refl,
                    subst (λ a. IsCarriedChange e w a.1 o) (sym went) carried,
                  )
                ]
            | inr (inr untimed) ↦ let went = untimed.outcome in absurd (ground arith)
          ]

      -- A poll whose publication fails keeps nothing of its evidence, so that the next poll sees the
      -- same change.
      pub evaluate_delta-failed :
          (provided : Observation F) (current : Option (WeatherReport F)) (w : World F)
          (o : PollOutcome F)
          → (evaluate_delta outside request iso floats (fetched provided current) w).0 ≡ ok o
          → o.error_code ≡ publish_failed
          → let after = evaluate_delta outside request iso floats (fetched provided current) w in
            (held_flight request after.1.store ≡ held_flight request w.store)
            × (held_weather request after.1.store ≡ held_weather request w.store)
      unfolding get_last_observation get_last_weather
      evaluate_delta-failed provided current w o returned error =
          let flight = flight_of request provided in
          elim (evaluate_delta-cases outside request iso floats provided current w) [
            | inl baseline ↦ let went = baseline.outcome in absurd (ground arith)
            | inr (inl compared) ↦
                let e = with_stale request compared.previous flight current w compared.stale in
                let went = compared.outcome in
                elim (compare_evidence-cases outside request iso floats e w) [
                  | inl quiet ↦ let then_quiet = quiet.outcome in absurd (ground arith)
                  | inr (inl reported) ↦
                      let c = reported.candidate in
                      let then_reported = reported.outcome in
                      let told = report-IsReportOf e c w in
                      let flight_kept =
                        get_item-emit (flight_key request) (omega arith) outside c w in
                      let weather_kept =
                        get_item-emit (weather_key request.trip_id request.leg_id) (omega arith)
                          outside c w in
                      elim told.its_end [
                        | inl (done, no_error) ↦ absurd (ground arith)
                        | inr (failed, left) ↦ (ground arith, ground arith)
                      ]
                  | inr (inr raised) ↦ let then_raised = raised.outcome in absurd (ground arith)
                ]
            | inr (inr untimed) ↦ let went = untimed.outcome in absurd (ground arith)
          ]
