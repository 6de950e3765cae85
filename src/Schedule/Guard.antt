-- ===== src/Schedule/Guard.antt =====
-- The times that are written after a poll, and the guard against a poll that is reported twice.
use flight_multi_agent.Base.{
  ℕ, ◌+◌, ◌*◌, ◌≤◌, ◌<◌, ◌≡◌, ◌⊎◌, refl, String, false, none, some, List, [], ◌∷◌, arith, leb,
  Bool-cases, inl, inr,
}
use flight_multi_agent.Clock.{minute, hour}
use flight_multi_agent.Schedule.{
  Leg, active, completed, ScheduledLeg, interval, next_poll_time, is_claimed, complete_row,
  complete_poll, fail_row, fail_poll,
}

interval-bounds :
    (departure at : ℕ) → (10 * minute ≤ interval departure at) × (interval departure at ≤ 6 * hour)
unfolding interval
interval-bounds departure at = (ground arith, ground arith)

-- A leg stays active until two hours after its arrival, and then its next poll is at least ten
-- minutes and at most six hours later; after that it is completed and has no next poll.
pub next_poll_time-cases :
    (departure arrival at : ℕ)
    → ((arrival + 2 * hour ≤ at) × (next_poll_time departure arrival at ≡ (completed, none)))
      ⊎ ((at < arrival + 2 * hour)
          × ((next : ℕ) × (next_poll_time departure arrival at ≡ (active, some next))
              × (at + 10 * minute ≤ next)
              × (next ≤ at + 6 * hour)))
unfolding next_poll_time
next_poll_time-cases departure arrival at =
    let next = at + interval departure at in
    let (low, high) = interval-bounds departure at in
    elim (Bool-cases (leb (arrival + 2 * hour) at)) [
      | inl over ↦ inl (ground arith, ground arith)
      | inr going ↦ inr (ground arith, (next, ground arith, omega arith, omega arith))
    ]

module _ (held : ScheduledLeg) (leg : Leg) where
  pub complete_row-unclaimed :
      (status : String) (at : ℕ)
      → is_claimed held leg ≡ false
      → complete_row held status at leg ≡ leg
  unfolding complete_row
  complete_row-unclaimed status at unclaimed = ground arith

  pub fail_row-unclaimed : (at : ℕ) → is_claimed held leg ≡ false → fail_row held at leg ≡ leg
  unfolding fail_row
  fail_row-unclaimed at unclaimed = ground arith

  -- A row's poll moves on when it is completed, so that the same claim no longer fits it.
  pub claimed-complete_row :
      (status : String) (at : ℕ)
      → held.due_at ≤ at
      → is_claimed held (complete_row held status at leg) ≡ false
  unfolding complete_row
  claimed-complete_row status at in_time =
      let cases = next_poll_time-cases held.scheduled_departure_at held.scheduled_arrival_at at in
      elim (Bool-cases (is_claimed held leg)) [
        | inr unclaimed ↦ ground arith
        | inl claimed ↦ elim cases [
          | inl (over, ended) ↦ ground arith
          | inr (going, (next, continued, low, high)) ↦ ground arith
        ]
      ]

  pub claimed-fail_row :
      (at : ℕ) → held.due_at ≤ at → is_claimed held (fail_row held at leg) ≡ false
  unfolding fail_row
  claimed-fail_row at in_time = ground arith

module _ (held : ScheduledLeg) (first : String) (at : ℕ) (in_time : held.due_at ≤ at) where
  -- A claim that was completed is spent: when it is completed again, or fails after that, whatever
  -- the outcome and the time, no leg changes. The completion is not before the poll was due.
  pub complete_poll-spent :
      (again : String) (later : ℕ) (legs : List Leg)
      → let done = complete_poll held first at legs in
        (complete_poll held again later done ≡ done) × (fail_poll held later done ≡ done)
  unfolding complete_poll fail_poll
  complete_poll-spent again later [] = (refl, refl)
  complete_poll-spent again later (leg ∷ legs) =
      let row = complete_row held first at leg in
      let spent = claimed-complete_row held leg first at in_time in
      let (completes, fails) = complete_poll-spent again later legs in
      let kept = complete_row-unclaimed held row again later spent in
      let failed = fail_row-unclaimed held row later spent in (ground arith, ground arith)

module _ (held : ScheduledLeg) (at : ℕ) (in_time : held.due_at ≤ at) where
  -- A claim that failed is spent too: when it fails again, or is completed after that, no leg
  -- changes. The failure is not before the poll was due.
  pub fail_poll-spent :
      (again : String) (later : ℕ) (legs : List Leg)
      → let done = fail_poll held at legs in
        (complete_poll held again later done ≡ done) × (fail_poll held later done ≡ done)
  unfolding complete_poll fail_poll
  fail_poll-spent again later [] = (refl, refl)
  fail_poll-spent again later (leg ∷ legs) =
      let row = fail_row held at leg in
      let spent = claimed-fail_row held leg at in_time in
      let (completes, fails) = fail_poll-spent again later legs in
      let kept = complete_row-unclaimed held row again later spent in
      let failed = fail_row-unclaimed held row later spent in (ground arith, ground arith)
