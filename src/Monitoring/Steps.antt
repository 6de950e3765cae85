-- ===== src/Monitoring/Steps.antt =====
-- The ways that a poll goes.
use flight_multi_agent.Base.{
  ◌≡◌, ◌⊎◌, refl, Option, none, some, List, [], ◌∷◌, arith, Option-cases, inl, inr,
}
use flight_multi_agent.Base.Result.{ok, raise, Error, Result-cases}
use flight_multi_agent.Clock.{IsoFormat}
use flight_multi_agent.Evidence.{Candidate, Field}
use flight_multi_agent.Observation.{Observation, Floats}
use flight_multi_agent.MonitoringStore.{WeatherReport, get_last_observation}
use flight_multi_agent.Monitoring.{PollRequest, fetched, baseline_stored, Outside, World}
use flight_multi_agent.Monitoring.Judge.{PollEvidence, flight_of, fields_of, candidate_of}
use flight_multi_agent.Monitoring.Poll.{
  persist, fresh_flight, report, compare_evidence, quiet_outcome, is_stale, with_stale,
  evaluate_delta, outcome_of,
}

List-cases : {A : Type 0} (xs : List A) → (xs ≡ []) ⊎ ((x : A) × (rest : List A) × (xs ≡ x ∷ rest))
List-cases [] = inl refl
List-cases (x ∷ xs) = inr (x, xs, refl)

module _ {F : Type 0} (outside : Outside F) (request : PollRequest) (iso : IsoFormat)
    (floats : Floats F) where
  module _ (e : PollEvidence F) (w : World F) where
    -- No field has changed.
    pub record IsQuiet : Type 0 where
      pub no_fields : fields_of e ≡ []
      pub outcome : compare_evidence outside request iso floats e w ≡ (
        ok (quiet_outcome e),
        record w { store = persist request (fresh_flight e) e.current_weather w.store },
      )

    -- A field has changed, and a candidate is reported.
    pub record IsReported : Type 0 where
      pub first : Field
      pub later : List Field
      pub some_fields : fields_of e ≡ first ∷ later
      pub candidate : Candidate F
      pub built : candidate_of iso floats request e ≡ ok candidate
      pub outcome :
          compare_evidence outside request iso floats e w
          ≡ (ok (report outside request e candidate w).0, (report outside request e candidate w).1)

    -- The candidate cannot be built.
    pub record IsRaised : Type 0 where
      pub error : Error
      pub outcome : compare_evidence outside request iso floats e w ≡ (raise error, w)

    pub compare_evidence-cases : IsQuiet ⊎ IsReported ⊎ IsRaised
    unfolding compare_evidence
    compare_evidence-cases = elim (List-cases (fields_of e)) [
      | inl no_fields ↦ inl (record { no_fields = no_fields; outcome = ground arith })
      | inr (first, later, some_fields) ↦ elim (Result-cases (candidate_of iso floats request e)) [
        | inl (error, raised) ↦ inr (inr (record { error = error; outcome = ground arith }))
        | inr (c, built) ↦ inr (
            inl (record {
              first = first;
              later = later;
              some_fields = some_fields;
              candidate = c;
              built = built;
              outcome = ground arith;
            }))
      ]
    ]

  module _ (provided : Observation F) (current : Option (WeatherReport F)) (w : World F) where
    -- The first evidence of the leg.
    pub record IsBaseline : Type 0 where
      pub no_previous : get_last_observation w.store request.trip_id request.leg_id ≡ none
      pub outcome : evaluate_delta outside request iso floats (fetched provided current) w ≡ (
        ok (outcome_of baseline_stored (some (flight_of request provided)) current none),
        record w { store = persist request (some (flight_of request provided)) current w.store },
      )

    -- The evidence is compared with that of the poll before.
    pub record IsCompared : Type 0 where
      pub previous : Observation F
      pub held : get_last_observation w.store request.trip_id request.leg_id ≡ some previous
      pub stale : _
      pub told : is_stale iso (flight_of request provided) previous ≡ ok stale
      pub outcome :
          evaluate_delta outside request iso floats (fetched provided current) w
          ≡ compare_evidence outside request iso floats
              (with_stale request previous (flight_of request provided) current w stale)
              w

    -- A time of the two is no timestamp.
    pub record IsUntimed : Type 0 where
      pub error : Error
      pub outcome :
          evaluate_delta outside request iso floats (fetched provided current) w ≡ (raise error, w)

    pub evaluate_delta-cases : IsBaseline ⊎ IsCompared ⊎ IsUntimed
    unfolding evaluate_delta
    evaluate_delta-cases =
        let flight = flight_of request provided in
        elim (Option-cases (get_last_observation w.store request.trip_id request.leg_id)) [
          | inl first ↦ inl (record { no_previous = first; outcome = ground arith })
          | inr (previous, held) ↦ elim (Result-cases (is_stale iso flight previous)) [
            | inl (error, raised) ↦ inr (inr (record { error = error; outcome = ground arith }))
            | inr (stale, told) ↦ inr (
                inl (record {
                  previous = previous;
                  held = held;
                  stale = stale;
                  told = told;
                  outcome = ground arith;
                }))
          ]
        ]
