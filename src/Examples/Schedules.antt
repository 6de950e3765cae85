-- ===== src/Examples/Schedules.antt =====
-- Two legs that are due, and workers that claim and report them.
use flight_multi_agent.Base.{
  ℕ, ◌+◌, ◌*◌, ◌<◌, ◌≤◌, ◌≡◌, ◌⊎◌, refl, String, Bool, false, none, some, List, [], ◌∷◌, map, All,
  arith,
}
use flight_multi_agent.Base.Assoc.{Dict, insert, lookup}
use flight_multi_agent.Clock.{minute, hour}
use flight_multi_agent.Schedule.{
  ScheduledLeg, put_trace_context, Leg, active, completed, scheduled_leg, chosen, is_due,
  claim_due_legs, next_poll_time, complete_poll, fail_poll,
}
use flight_multi_agent.Schedule.Workers.{Operation, claims, completes, run, IsOther}
use flight_multi_agent.Schedule.Exclusive.{Spares, claim_due_legs-exclusive}
use flight_multi_agent.Schedule.Guard.{next_poll_time-cases, complete_poll-spent}

abbrev leg_at : String → ℕ → Leg
leg_at leg_id due = record {
  trip_id = "trip-a";
  leg_id = leg_id;
  flight_iata = "BA100";
  flight_date = "2026-08-25";
  origin = "LHR";
  destination = "JFK";
  scheduled_departure_at = 100000000000;
  scheduled_arrival_at = 110000000000;
  monitoring_status = active;
  next_poll_at = some due;
  lease_until = none;
  last_poll_at = none;
  poll_count = 0;
  last_poll_status = none;
}

abbrev first_leg : Leg
first_leg = leg_at "leg-1" 7000

abbrev traced : Dict (Dict String)
traced =
    put_trace_context "trip-b" [] (put_trace_context "trip-a" (("traceparent", "00-1") ∷ []) [])

abbrev held_leg : ScheduledLeg
held_leg = scheduled_leg traced first_leg

abbrev two_legs : List Leg
two_legs = first_leg ∷ leg_at "leg-2" 5000 ∷ []

abbrev unlocked : Leg → Bool
unlocked leg = false

keeps_trace : held_leg.trace_headers ≡ ("traceparent", "00-1") ∷ []
unfolding scheduled_leg put_trace_context insert lookup
keeps_trace = refl

in_time : held_leg.due_at ≤ 20000
unfolding scheduled_leg
in_time = omega arith

-- The first claim takes the leg that is due first, the second one the other.
claims_by_time :
    map (λ leg. leg.leg_id) (claim_due_legs unlocked 10000 1 60 none two_legs).0 ≡ "leg-2" ∷ []
unfolding claim_due_legs chosen is_due
claims_by_time = refl

claims_rest :
    map
      (λ leg. leg.leg_id)
      (claim_due_legs unlocked 10001 5 60 none
        (claim_due_legs unlocked 10000 1 60 none two_legs).1).0
    ≡ "leg-1" ∷ []
unfolding claim_due_legs chosen is_due
claims_rest = refl

-- A worker takes the second leg; two others take and report the first one in the meantime.
abbrev meanwhile : List Operation
meanwhile =
    claims unlocked 10001 5 60 none
    ∷ completes held_leg "ok" 20000
    ∷ claims unlocked 30000 5 60 (some "trip-a")
    ∷ []

abbrev first_claim : List Leg × List Leg
first_claim = claim_due_legs unlocked 10000 1 60 none two_legs

spared : All (Spares first_claim.0 60010000) meanwhile
unfolding claim_due_legs chosen is_due scheduled_leg
spared = (omega arith, (refl, (omega arith, tt)))

claim_due_legs-exclusive_example :
    All
      (IsOther first_claim.0)
      (claim_due_legs unlocked 40000 5 60 none (run meanwhile first_claim.1)).0
claim_due_legs-exclusive_example =
    claim_due_legs-exclusive unlocked 10000 1 60 none two_legs meanwhile unlocked 40000 5 60 none
      spared (omega arith)

next_poll_time-cases_example :
    ((110000000000 + 2 * hour ≤ 10000)
      × (next_poll_time 100000000000 110000000000 10000 ≡ (completed, none)))
    ⊎ ((10000 < 110000000000 + 2 * hour)
        × ((next : ℕ) × (next_poll_time 100000000000 110000000000 10000 ≡ (active, some next))
            × (10000 + 10 * minute ≤ next)
            × (next ≤ 10000 + 6 * hour)))
next_poll_time-cases_example = next_poll_time-cases 100000000000 110000000000 10000

complete_poll-spent_example :
    let held = held_leg in
    let done = complete_poll held "ok" 20000 two_legs in
    (complete_poll held "ok" 30000 done ≡ done) × (fail_poll held 30000 done ≡ done)
complete_poll-spent_example = complete_poll-spent held_leg "ok" 20000 in_time "ok" 30000 two_legs
