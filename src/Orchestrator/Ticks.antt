-- ===== src/Orchestrator/Ticks.antt =====
-- What a tick of the scheduler reports of the legs that it has claimed.
use mathlib.Core.Path.{subst}
use flight_multi_agent.Base.{
  ℕ, suc, ◌+◌, ◌≤◌, ◌≡◌, inl, inr, refl, ap, true, List, [], ◌∷◌, All, arith, length, Bool-cases,
  Option-cases,
}
use flight_multi_agent.Base.Result.{ok, Result-cases}
use flight_multi_agent.Schedule.{ScheduledLeg}
use flight_multi_agent.Trips.{Calendar, Database}
use flight_multi_agent.Trips.Polls.{complete_transaction}
use flight_multi_agent.Orchestrator.Claimed.{claim_legs-AreDue}
use flight_multi_agent.Orchestrator.PollResults.{PollResult, poll_result, failed_result}
use flight_multi_agent.Orchestrator.Tick.{
  TickOutside, TickRequest, TickOutcome, polled, report_failure, handle_leg, handle_legs,
  count_completed, tick_at, claimed_legs,
}
use flight_multi_agent.Orchestrator.Reported.{AreOf, handle_leg-IsReported}

module _ (calendar : Calendar) (outside : TickOutside) (now : ℕ) where
  -- The results are those of the legs, in order.
  handle_legs-AreOf :
      (legs : List ScheduledLeg) (db next : Database) (results : List PollResult)
      → All (λ leg. leg.due_at ≤ now) legs
      → handle_legs calendar outside now legs db ≡ (ok results, next)
      → AreOf calendar legs results
  unfolding handle_legs
  handle_legs-AreOf [] db next results in_time handled =
      let none_left : [] ≡ results = ground arith in subst (AreOf calendar []) none_left tt
  handle_legs-AreOf (leg ∷ legs) db next results in_time handled =
      let (first, middle) = handle_leg calendar outside now leg db in
      elim (Result-cases (handle_leg calendar outside now leg db).0) [
        | inl (e, raised) ↦ absurd (ground arith)
        | inr (result, one) ↦
            elim (Result-cases
              (handle_legs calendar outside now legs
                (handle_leg calendar outside now leg db).1).0) [
                  | inl (e, raised) ↦ absurd (ground arith)
                  | inr (others, rest) ↦
                      let made : result ∷ others ≡ results = ground arith in
                      let (own, spent) =
                        handle_leg-IsReported calendar outside now leg db
                          (handle_leg calendar outside now leg db).1 result in_time.0
                          (ground arith) in
                      let them =
                        handle_legs-AreOf legs (handle_leg calendar outside now leg db).1
                          (handle_legs calendar outside now legs
                            (handle_leg calendar outside now leg db).1).1
                          others in_time.1 (ground arith) in
                      subst (AreOf calendar (leg ∷ legs)) made (own, them)
                ]
      ]

count_completed-le : (results : List PollResult) → count_completed results ≤ length results
unfolding count_completed
count_completed-le [] = omega arith
count_completed-le (result ∷ results) = let rest = count_completed-le results in ground arith

AreOf-length :
    (calendar : Calendar) (legs : List ScheduledLeg) (results : List PollResult)
    → AreOf calendar legs results
    → length results ≡ length legs
AreOf-length calendar [] [] same = refl
AreOf-length calendar [] (result ∷ results) same = elim same [ ]
AreOf-length calendar (leg ∷ legs) [] same = elim same [ ]
AreOf-length calendar (leg ∷ legs) (result ∷ results) same =
    ap suc (AreOf-length calendar legs results same.1)

module _ (calendar : Calendar) (outside : TickOutside) (now : ℕ)
    (stores : (leg : ScheduledLeg) → outside.fails leg ≡ true) where
  report_failure-Returns :
      (leg : ScheduledLeg) (db : Database)
      → (result : PollResult) × ((report_failure calendar outside now leg db).0 ≡ ok result)
  unfolding report_failure
  report_failure-Returns leg db =
      let stored = stores leg in (failed_result outside.repr calendar leg, ground arith)

  handle_leg-Returns :
      (leg : ScheduledLeg) (db : Database)
      → (result : PollResult) × ((handle_leg calendar outside now leg db).0 ≡ ok result)
  unfolding handle_leg
  handle_leg-Returns leg before =
      let db = outside.meanwhile leg before in
      let (failed, reported) = report_failure-Returns leg db in
      elim (Option-cases (polled calendar outside now leg)) [
        | inl lost ↦ (failed, ground arith)
        | inr (outcome, answered) ↦
            let done = complete_transaction calendar leg outcome now db in
            let (late, reported_late) = report_failure-Returns leg done in
            elim (Bool-cases (outside.completes leg)) [
              | inr lost ↦ (failed, ground arith)
              | inl stored ↦ elim (Result-cases (poll_result outside.repr calendar leg outcome)) [
                | inl (e, refused) ↦ (late, ground arith)
                | inr (result, made) ↦ (result, ground arith)
              ]
            ]
      ]

  handle_legs-Returns :
      (legs : List ScheduledLeg) (db : Database)
      → (results : List PollResult) × ((handle_legs calendar outside now legs db).0 ≡ ok results)
  unfolding handle_legs
  handle_legs-Returns [] db = ([], refl)
  handle_legs-Returns (leg ∷ legs) db =
      let (result, one) = handle_leg-Returns leg db in
      let (results, rest) = handle_legs-Returns legs (handle_leg calendar outside now leg db).1 in
      (result ∷ results, ground arith)

  -- Where the failures of polls can be stored, no leg keeps another from its poll.
  tick_at-Returns :
      (lease_seconds : ℕ) (request : TickRequest) (db : Database) (legs : List ScheduledLeg)
      → (claimed_legs calendar outside lease_seconds now request db).0 ≡ ok legs
      → (outcome : TickOutcome) × ((tick_at calendar outside lease_seconds now request db).0
          ≡ ok outcome)
  unfolding tick_at
  tick_at-Returns lease_seconds request db legs claimed =
      let claim = claimed_legs calendar outside lease_seconds now request db in
      let (results, handled) = handle_legs-Returns legs claim.1 in
      elim (Result-cases (tick_at calendar outside lease_seconds now request db).0) [
        | inl (e, raised) ↦ absurd (ground arith)
        | inr returned ↦ returned
      ]

-- What the outcome of a tick says of the legs that were claimed.
abbrev pub IsTick : Calendar → List ScheduledLeg → ℕ → TickOutcome → Type 0
IsTick calendar legs maximum outcome =
    AreOf calendar legs outcome.results
    × (outcome.claimed_count ≡ length outcome.results)
    × (outcome.completed_count + outcome.failed_count ≡ outcome.claimed_count)
    × (outcome.claimed_count ≤ maximum)

module _ (calendar : Calendar) (outside : TickOutside) (lease_seconds now : ℕ)
    (request : TickRequest) (db : Database) (legs : List ScheduledLeg)
    (claimed : (claimed_legs calendar outside lease_seconds now request db).0 ≡ ok legs) where
  tick_at-IsTick :
      (outcome : TickOutcome)
      → (tick_at calendar outside lease_seconds now request db).0 ≡ ok outcome
      → IsTick calendar legs request.maximum_legs outcome
  unfolding tick_at
  tick_at-IsTick outcome ticked =
      let leased = (claimed_legs calendar outside lease_seconds now request db).1 in
      let handled = handle_legs calendar outside now legs leased in
      let (few, in_time) =
        claim_legs-AreDue outside.locked outside.claims now request.maximum_legs lease_seconds
          request.trip_id db legs claimed in
      elim (Result-cases handled.0) [
        | inl (e, raised) ↦ absurd (ground arith)
        | inr (results, done) ↦
            let of_legs =
              handle_legs-AreOf calendar outside now legs leased handled.1 results in_time
                (ground arith) in
            let reported : results ≡ outcome.results = ground arith in
            let same = AreOf-length calendar legs results of_legs in
            let low = count_completed-le results in
            (subst (AreOf calendar legs) reported of_legs, ground arith, ground arith, ground arith)
      ]

  -- Where the claim returns legs and the failures of polls can be stored, a tick whose time has
  -- been read returns, whichever polls fail, whichever completions cannot be stored and whatever
  -- other transactions do meanwhile. It reports each leg that it has claimed once, in order; it
  -- has claimed at most the legs that it may, and the completed and the failed polls together are
  -- the claimed ones.
  pub tick_at-reports :
      ((leg : ScheduledLeg) → outside.fails leg ≡ true)
      → (outcome : TickOutcome) × ((tick_at calendar outside lease_seconds now request db).0
          ≡ ok outcome)
        × IsTick calendar legs request.maximum_legs outcome
  tick_at-reports stores =
      let (outcome, returned) =
        tick_at-Returns calendar outside now stores lease_seconds request db legs claimed in
      (outcome, returned, tick_at-IsTick outcome returned)
