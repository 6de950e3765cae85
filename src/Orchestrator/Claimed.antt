-- ===== src/Orchestrator/Claimed.antt =====
-- What the claim of a tick hands over.
use mathlib.Core.Path.{subst}
use flight_multi_agent.Base.{
  ℕ, suc, ◌≤◌, ◌≡◌, inl, inr, refl, ap, String, Bool, Option, List, [], ◌∷◌, map, all, All, arith,
  length, Bool-cases,
}
use flight_multi_agent.Base.Assoc.{Dict}
use flight_multi_agent.Base.Result.{ok}
use flight_multi_agent.Schedule.{Leg, ScheduledLeg, claim_due_legs, scheduled_leg, due_at}
use flight_multi_agent.Schedule.Leases.{claim_due_legs-bounds}
use flight_multi_agent.Schedule.Due.{claim_due_legs-IsInTime}
use flight_multi_agent.Trips.{Database}
use flight_multi_agent.Trips.Polls.{claim_transaction}
use flight_multi_agent.Orchestrator.Claim.{claim_legs, is_scheduled}

-- What is handed to a worker keeps the time at which the leg was due.
scheduled-in_time :
    (now : ℕ) (contexts : Dict (Dict String)) (legs : List Leg)
    → All (λ leg. due_at leg ≤ now) legs
    → All (λ leg. leg.due_at ≤ now) (map (scheduled_leg contexts) legs)
unfolding scheduled_leg
scheduled-in_time now contexts [] each = tt
scheduled-in_time now contexts (leg ∷ legs) each =
    (each.0, scheduled-in_time now contexts legs each.1)

scheduled-length :
    (contexts : Dict (Dict String)) (legs : List Leg)
    → length (map (scheduled_leg contexts) legs) ≡ length legs
scheduled-length contexts [] = refl
scheduled-length contexts (leg ∷ legs) = ap suc (scheduled-length contexts legs)

-- The legs are few, and their polls are due.
abbrev pub AreDue : ℕ → ℕ → List ScheduledLeg → Type 0
AreDue now maximum legs = (length legs ≤ maximum) × All (λ leg. leg.due_at ≤ now) legs

module _ (locked : Leg → Bool) (commits : Bool) (now maximum seconds : ℕ) (trip : Option String)
    (db : Database) where
  claim_transaction-AreDue :
      AreDue now maximum (claim_transaction locked now maximum seconds trip db).0
  unfolding claim_transaction
  claim_transaction-AreDue =
      let claim = claim_due_legs locked now maximum seconds trip db.legs in
      let (few, leases) = claim_due_legs-bounds locked now maximum seconds trip db.legs in
      let counted = scheduled-length db.contexts claim.0 in
      (
        ground arith,
        scheduled-in_time now db.contexts claim.0
            (claim_due_legs-IsInTime locked now maximum seconds trip db.legs),
      )

  -- The legs that a claim returns are those of its transaction.
  claim_legs-is_transaction :
      (legs : List ScheduledLeg)
      → (claim_legs locked commits now maximum seconds trip db).0 ≡ ok legs
      → (claim_transaction locked now maximum seconds trip db).0 ≡ legs
  unfolding claim_legs
  claim_legs-is_transaction legs claimed =
      let due = (claim_transaction locked now maximum seconds trip db).0 in
      elim (Bool-cases commits) [
        | inl committed ↦ elim (Bool-cases (all is_scheduled due)) [
          | inl valid ↦ ground arith
          | inr refused ↦ absurd (ground arith)
        ]
        | inr lost ↦ absurd (ground arith)
      ]

  pub claim_legs-AreDue :
      (legs : List ScheduledLeg)
      → (claim_legs locked commits now maximum seconds trip db).0 ≡ ok legs
      → AreDue now maximum legs
  claim_legs-AreDue legs claimed =
      subst (AreDue now maximum) (claim_legs-is_transaction legs claimed) claim_transaction-AreDue
