-- ===== src/Orchestrator/Reported.antt =====
-- What a tick of the scheduler reports, and what it leaves of its claims.
use mathlib.Core.Path.{subst}
use flight_multi_agent.Base.{
  ℕ, ◌≤◌, ◌≡◌, inl, inr, refl, String, false, List, [], ◌∷◌, All, arith, if◌then◌else◌, Bool-cases,
  Option-cases,
}
use flight_multi_agent.Base.Result.{ok, >>=-eq-ok, Result-cases, ok-ensures}
use flight_multi_agent.Schedule.{Leg, ScheduledLeg, is_claimed, complete_poll, fail_poll}
use flight_multi_agent.Schedule.Guard.{claimed-complete_row, claimed-fail_row}
use flight_multi_agent.Trips.{Calendar, AgentOutcome, Database, poll_key}
use flight_multi_agent.Trips.Polls.{complete_transaction, fail_transaction}
use flight_multi_agent.Orchestrator.PollResults.{
  PollResult, poll_result, failed_result, action_text, failure_of, get_of, short_message,
  optional_text,
}
use flight_multi_agent.Base.Json.{field_of}
use flight_multi_agent.Base.Text.{truthy}
use flight_multi_agent.Orchestrator.Tick.{TickOutside, polled, report_failure, handle_leg}

-- No leg is at the poll that was claimed.
abbrev pub IsSpent : ScheduledLeg → Database → Type 0
IsSpent held db = All (λ leg. is_claimed held leg ≡ false) db.legs

module _ (held : ScheduledLeg) (at : ℕ) (in_time : held.due_at ≤ at) where
  spent-complete_poll :
      (status : String) (legs : List Leg)
      → All (λ leg. is_claimed held leg ≡ false) (complete_poll held status at legs)
  unfolding complete_poll
  spent-complete_poll status [] = tt
  spent-complete_poll status (leg ∷ legs) =
      (claimed-complete_row held leg status at in_time, spent-complete_poll status legs)

  spent-fail_poll :
      (legs : List Leg) → All (λ leg. is_claimed held leg ≡ false) (fail_poll held at legs)
  unfolding fail_poll
  spent-fail_poll [] = tt
  spent-fail_poll (leg ∷ legs) = (claimed-fail_row held leg at in_time, spent-fail_poll legs)

-- The result is of the leg.
abbrev pub IsOf : Calendar → ScheduledLeg → PollResult → Type 0
IsOf calendar leg result =
    (result.trip_id ≡ leg.trip_id)
    × (result.leg_id ≡ leg.leg_id)
    × (result.poll_key ≡ poll_key calendar leg)

abbrev pub AreOf : Calendar → List ScheduledLeg → List PollResult → Type 0
AreOf calendar [] [] = Unit
AreOf calendar (leg ∷ legs) (result ∷ results) =
    IsOf calendar leg result × AreOf calendar legs results
AreOf calendar [] (result ∷ results) = ⊥
AreOf calendar (leg ∷ legs) [] = ⊥

module _ (calendar : Calendar) (outside : TickOutside) (now : ℕ) where
  report_failure-IsReported :
      (leg : ScheduledLeg) (db next : Database) (result : PollResult)
      → leg.due_at ≤ now
      → report_failure calendar outside now leg db ≡ (ok result, next)
      → IsOf calendar leg result × IsSpent leg next
  unfolding report_failure fail_transaction
  report_failure-IsReported leg db next result in_time reported =
      elim (Bool-cases (outside.fails leg)) [
        | inr lost ↦ absurd (ground arith)
        | inl stored ↦
            let same : failed_result outside.repr calendar leg ≡ result = ground arith in
            let left : fail_poll leg now db.legs ≡ next.legs = ground arith in
            (
              subst (IsOf calendar leg) same (refl, refl, refl),
              subst (All (λ l. is_claimed leg l ≡ false)) left
                  (spent-fail_poll leg now in_time db.legs),
            )
      ]

  poll_result-IsOf :
      (leg : ScheduledLeg) (outcome : AgentOutcome) (result : PollResult)
      → poll_result outside.repr calendar leg outcome ≡ ok result
      → IsOf calendar leg result
  unfolding poll_result
  poll_result-IsOf leg outcome result made =
      let repr = outside.repr in
      let (a, first, after_first) =
        >>=-eq-ok (action_text repr "notification_action" outcome.orchestration) _ made in
      let (b, second, after_second) =
        >>=-eq-ok (action_text repr "search_action" outcome.orchestration) _ after_first in
      let (c, third, after_third) =
        >>=-eq-ok (failure_of repr (get_of "submission_failure" outcome.notification)) _
          after_second in
      let (d, fourth, after_fourth) =
        >>=-eq-ok (short_message repr outcome.notification) _ after_third in
      let (e, fifth, after_fifth) =
        >>=-eq-ok (optional_text repr (get_of "error_code" outcome.notification)) _ after_fourth in
      let (f, sixth, last) =
        >>=-eq-ok (optional_text repr (field_of "remediation" c)) _ after_fifth in
      ok-ensures (IsOf calendar leg) (refl, refl, refl) last

  -- A poll is reported, completed or failed, and its claim is spent: the result is of the leg and
  -- of the poll that was claimed, and no leg is at that poll any more. The poll was due, and its
  -- report is stored.
  pub handle_leg-IsReported :
      (leg : ScheduledLeg) (db next : Database) (result : PollResult)
      → leg.due_at ≤ now
      → handle_leg calendar outside now leg db ≡ (ok result, next)
      → IsOf calendar leg result × IsSpent leg next
  unfolding handle_leg complete_transaction
  handle_leg-IsReported leg before next result in_time handled =
      let db = outside.meanwhile leg before in
      elim (Option-cases (polled calendar outside now leg)) [
        | inl failed ↦ report_failure-IsReported leg db next result in_time (ground arith)
        | inr (outcome, answered) ↦
            let done = complete_transaction calendar leg outcome now db in
            elim (Bool-cases (outside.completes leg)) [
              | inr lost ↦ report_failure-IsReported leg db next result in_time (ground arith)
              | inl stored ↦ elim (Result-cases (poll_result outside.repr calendar leg outcome)) [
                | inl (e, refused) ↦
                    report_failure-IsReported leg done next result in_time (ground arith)
                | inr (own, made) ↦
                    let same : own ≡ result = ground arith in
                    let left : done ≡ next = ground arith in
                    (
                      subst (IsOf calendar leg) same (poll_result-IsOf leg outcome own made),
                      subst (IsSpent leg) left (
                          spent-complete_poll leg now in_time
                            (if truthy outcome.status then outcome.status else "unknown") db.legs),
                    )
              ]
            ]
      ]
