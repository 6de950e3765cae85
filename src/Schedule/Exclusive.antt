-- ===== src/Schedule/Exclusive.antt =====
-- What a claim of legs excludes while its lease lasts.
use flight_multi_agent.Base.{
  ℕ, ◌+◌, ◌*◌, ◌<◌, ◌≡◌, ◌⊎◌, inl, inr, refl, ◌∙◌, String, Bool, true, false, not, ◌&&◌, Option,
  some, List, [], ◌∷◌, map, any, filter, All, All-mapped, arith, if◌then◌else◌, Bool-cases,
}
use flight_multi_agent.Schedule.{
  Leg, ScheduledLeg, is_due, is_claimed, leased, same_leg, chosen, claim_due_legs, in_order, second,
  complete_row, fail_row, complete_poll, fail_poll,
}
use flight_multi_agent.Schedule.Leases.{in_order-All, take-All, map-leased}
use flight_multi_agent.Schedule.Workers.{
  Operation, claims, completes, fails, operate, run, is_of, IsOther, any-map-leased, filter-All,
  any-same-IsOther, is_of-IsOther,
}

module _ (claimed : List Leg) (until : ℕ) where
  -- A claim comes before the end of the lease, and what is reported is of another leg than those
  -- that are claimed.
  abbrev pub Spares : Operation → Type 0
  Spares (claims locked now maximum seconds trip) = now < until
  Spares (completes held status at) = any (is_of held) claimed ≡ false
  Spares (fails held at) = any (is_of held) claimed ≡ false

  -- The leg is another one, or its lease is the given one.
  abbrev IsLeased : Leg → Type 0
  IsLeased leg = IsOther claimed leg ⊎ (leg.lease_until ≡ some until)

  module _ (locked : Leg → Bool) (now maximum seconds : ℕ) (trip : Option String)
      (early : now < until) where
    abbrev due : List Leg → List Leg
    due rows = chosen locked now maximum seconds trip rows

    due-IsOther :
        (row : Leg)
        → IsLeased row
        → (is_due now trip row && not (locked row)) ≡ true
        → IsOther claimed row
    unfolding is_due
    due-IsOther row (inl other) selected = other
    due-IsOther row (inr held) selected = absurd (ground arith)

    chosen-IsOther : (rows : List Leg) → All IsLeased rows → All (IsOther claimed) (due rows)
    unfolding chosen
    chosen-IsOther rows each =
        let test : Leg → Bool = λ row. is_due now trip row && not (locked row) in
        take-All (IsOther claimed) maximum (in_order (filter test rows)) (
          in_order-All (IsOther claimed) (filter test rows)
            (filter-All IsLeased (IsOther claimed) test rows due-IsOther each))

    claim_due_legs-IsOther :
        (rows : List Leg)
        → All IsLeased rows
        → All (IsOther claimed) (claim_due_legs locked now maximum seconds trip rows).0
    unfolding claim_due_legs
    claim_due_legs-IsOther rows each =
        let again = now + seconds * second in
        map-leased (IsOther claimed) again (due rows) (λ leg other. other)
          (chosen-IsOther rows each)

    claim_due_legs-IsLeased :
        (rows : List Leg)
        → All IsLeased rows
        → All IsLeased (claim_due_legs locked now maximum seconds trip rows).1
    unfolding claim_due_legs
    claim_due_legs-IsLeased rows each =
        let again = now + seconds * second in
        let others = chosen-IsOther rows each in
        All-mapped IsLeased IsLeased
          (λ leg. if any (same_leg leg) (due rows) then leased again leg else leg) rows
          (λ leg held. elim (Bool-cases (any (same_leg leg) (due rows))) [
            | inl taken ↦ rw taken (inl (any-same-IsOther claimed leg (due rows) others taken))
            | inr free ↦ rw free held
          ])
          each

  complete_row-IsLeased :
      (held : ScheduledLeg) (status : String) (at : ℕ) (row : Leg)
      → any (is_of held) claimed ≡ false
      → IsLeased row
      → IsLeased (complete_row held status at row)
  unfolding complete_row
  complete_row-IsLeased held status at row others each = elim (Bool-cases (is_claimed held row)) [
    | inl matched ↦ rw matched (inl (is_of-IsOther held row claimed others matched))
    | inr missed ↦ rw missed each
  ]

  fail_row-IsLeased :
      (held : ScheduledLeg) (at : ℕ) (row : Leg)
      → any (is_of held) claimed ≡ false
      → IsLeased row
      → IsLeased (fail_row held at row)
  unfolding fail_row
  fail_row-IsLeased held at row others each = elim (Bool-cases (is_claimed held row)) [
    | inl matched ↦ rw matched (inl (is_of-IsOther held row claimed others matched))
    | inr missed ↦ rw missed each
  ]

  operate-IsLeased :
      (operation : Operation) (rows : List Leg)
      → Spares operation
      → All IsLeased rows
      → All IsLeased (operate operation rows)
  unfolding complete_poll fail_poll
  operate-IsLeased (claims locked now maximum seconds trip) rows early each =
      claim_due_legs-IsLeased locked now maximum seconds trip early rows each
  operate-IsLeased (completes held status at) rows others each =
      All-mapped IsLeased IsLeased (complete_row held status at) rows
        (λ row. complete_row-IsLeased held status at row others) each
  operate-IsLeased (fails held at) rows others each =
      All-mapped IsLeased IsLeased (fail_row held at) rows
        (λ row. fail_row-IsLeased held at row others) each

  run-IsLeased :
      (operations : List Operation) (rows : List Leg)
      → All Spares operations
      → All IsLeased rows
      → All IsLeased (run operations rows)
  run-IsLeased [] rows spares each = each
  run-IsLeased (operation ∷ operations) rows spares each =
      run-IsLeased operations (operate operation rows) spares.1
        (operate-IsLeased operation rows spares.0 each)

module _ (locked : Leg → Bool) (now maximum seconds : ℕ) (trip : Option String)
    (legs : List Leg) where
  abbrev first_claim : List Leg × List Leg
  first_claim = claim_due_legs locked now maximum seconds trip legs

  abbrev until : ℕ
  until = now + seconds * second

  -- After the claim, each row is of another leg or leased.
  updated-IsLeased :
      (rows : List Leg)
      → let due = chosen locked now maximum seconds trip legs in
        All
          (IsLeased first_claim.0 until)
          (map (λ leg. if any (same_leg leg) due then leased until leg else leg) rows)
  unfolding claim_due_legs
  updated-IsLeased [] = tt
  updated-IsLeased (leg ∷ rows) =
      let due = chosen locked now maximum seconds trip legs in
      let rest = updated-IsLeased rows in
      elim (Bool-cases (any (same_leg leg) due)) [
        | inl taken ↦ rw taken (inr refl, rest)
        | inr free ↦ rw free (inl (any-map-leased due until leg ∙ free), rest)
      ]

  claimed-IsLeased : All (IsLeased first_claim.0 until) first_claim.1
  unfolding claim_due_legs
  claimed-IsLeased = updated-IsLeased legs

  -- While the lease of a claim lasts, no claim returns one of its legs, whatever claims and reports
  -- of polls come between, whichever trips they are for, whichever rows are locked and however many
  -- legs they may take, if the claims between are made within the lease and the reports are of
  -- other legs.
  pub claim_due_legs-exclusive :
      (operations : List Operation) (locked_next : Leg → Bool) (later next_maximum next_seconds : ℕ)
      (next_trip : Option String)
      → All (Spares first_claim.0 (now + seconds * second)) operations
      → later < now + seconds * second
      → All
          (IsOther first_claim.0)
          (claim_due_legs locked_next later next_maximum next_seconds next_trip
            (run operations first_claim.1)).0
  claim_due_legs-exclusive operations locked_next later next_maximum next_seconds next_trip spares
        early =
      claim_due_legs-IsOther first_claim.0 until locked_next later next_maximum next_seconds
        next_trip early (run operations first_claim.1)
        (run-IsLeased first_claim.0 until operations first_claim.1 spares claimed-IsLeased)
