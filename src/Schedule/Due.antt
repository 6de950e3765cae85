-- ===== src/Schedule/Due.antt =====
-- The legs that a claim returns are due.
use flight_multi_agent.Base.{
  ℕ, ◌+◌, ◌*◌, ◌≤◌, ◌≡◌, inl, inr, String, Bool, true, not, ◌&&◌, Option, List, [], ◌∷◌, filter,
  take, All, arith, Bool-cases, Option-cases,
}
use flight_multi_agent.Schedule.{Leg, is_due, due_at, chosen, claim_due_legs, in_order, second}
use flight_multi_agent.Schedule.Leases.{in_order-All, take-All, map-leased}

due-in_time :
    (now : ℕ) (trip : Option String) (leg : Leg) → is_due now trip leg ≡ true → due_at leg ≤ now
unfolding is_due
due-in_time now trip leg due = elim (Option-cases leg.next_poll_at) [
  | inl missing ↦ absurd (ground arith)
  | inr (at, known) ↦ ground arith
]

-- Of the rows that a test selects, each has what the test implies.
filter-All :
    (P : Leg → Type 0) (p : Leg → Bool) (legs : List Leg)
    → ((leg : Leg) → p leg ≡ true → P leg)
    → All P (filter p legs)
filter-All P p [] turns = tt
filter-All P p (leg ∷ legs) turns =
    let rest = filter-All P p legs turns in
    elim (Bool-cases (p leg)) [
      | inl selected ↦ rw selected (turns leg selected, rest)
      | inr passed ↦ rw passed rest
    ]

-- The legs that a claim returns were due by then.
pub claim_due_legs-IsInTime :
    (locked : Leg → Bool) (now maximum seconds : ℕ) (trip : Option String) (legs : List Leg)
    → All (λ leg. due_at leg ≤ now) (claim_due_legs locked now maximum seconds trip legs).0
unfolding claim_due_legs chosen
claim_due_legs-IsInTime locked now maximum seconds trip legs =
    let P : Leg → Type 0 = λ leg. due_at leg ≤ now in
    let test : Leg → Bool = λ leg. is_due now trip leg && not (locked leg) in
    let selected = filter-All P test legs (λ leg due. due-in_time now trip leg (ground arith)) in
    let ordered = in_order-All P (filter test legs) selected in
    let due = take maximum (in_order (filter test legs)) in
    map-leased P (now + seconds * second) due (λ leg in_time. in_time)
      (take-All P maximum (in_order (filter test legs)) ordered)
