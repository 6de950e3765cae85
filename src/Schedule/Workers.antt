-- ===== src/Schedule/Workers.antt =====
-- The operations of the workers on the legs, and how legs are told apart.
use text.Mathlib.TextEquality.{eq_iff}
use flight_multi_agent.Base.{
  ℕ, ◌≡◌, inl, inr, refl, ◌∙◌, String, Bool, true, false, ◌&&◌, Option, List, [], ◌∷◌, map, any,
  filter, All, arith, Bool-cases, str_eq,
}
use flight_multi_agent.Schedule.{
  Leg, ScheduledLeg, is_claimed, leased, same_leg, claim_due_legs, complete_poll, fail_poll,
}

-- The operations of the workers on the rows, in the order in which they are committed.
pub data Operation : Type 0 where
  claims :
      (locked : Leg → Bool) (now maximum_legs lease_seconds : ℕ) (trip_id : Option String)
      → Operation
  completes : ScheduledLeg → (outcome_status : String) (completed_at : ℕ) → Operation
  fails : ScheduledLeg → (failed_at : ℕ) → Operation

abbrev pub operate : Operation → List Leg → List Leg
operate (claims locked now maximum seconds trip) rows =
    (claim_due_legs locked now maximum seconds trip rows).1
operate (completes held status at) rows = complete_poll held status at rows
operate (fails held at) rows = fail_poll held at rows

abbrev pub run : List Operation → List Leg → List Leg
run [] rows = rows
run (operation ∷ operations) rows = run operations (operate operation rows)

pub any-same-ids :
    (a b : Leg) (legs : List Leg)
    → a.trip_id ≡ b.trip_id
    → a.leg_id ≡ b.leg_id
    → any (same_leg a) legs ≡ any (same_leg b) legs
any-same-ids a b [] trip leg = refl
any-same-ids a b (first ∷ legs) trip leg = let rest = any-same-ids a b legs trip leg in ground arith

pub any-map-leased :
    (legs : List Leg) (until : ℕ) (leg : Leg)
    → any (same_leg leg) (map (leased until) legs) ≡ any (same_leg leg) legs
any-map-leased [] until leg = refl
any-map-leased (first ∷ legs) until leg = let rest = any-map-leased legs until leg in ground arith

-- The rows that a test selects among rows with a property.
pub filter-All :
    (P Q : Leg → Type 0) (p : Leg → Bool) (legs : List Leg)
    → ((leg : Leg) → P leg → p leg ≡ true → Q leg)
    → All P legs
    → All Q (filter p legs)
filter-All P Q p [] turns each = tt
filter-All P Q p (leg ∷ legs) turns each =
    let rest = filter-All P Q p legs turns each.1 in
    elim (Bool-cases (p leg)) [
      | inl selected ↦ rw selected (turns leg each.0 selected, rest)
      | inr passed ↦ rw passed rest
    ]

-- The leg that a worker holds is the row's.
abbrev pub is_of : ScheduledLeg → Leg → Bool
is_of held leg = str_eq leg.trip_id held.trip_id && str_eq leg.leg_id held.leg_id

-- The leg is none of those that are claimed.
abbrev pub IsOther : List Leg → Leg → Type 0
IsOther claimed leg = any (same_leg leg) claimed ≡ false

module _ (claimed : List Leg) where
  pub any-same-IsOther :
      (row : Leg) (due : List Leg)
      → All (IsOther claimed) due
      → any (same_leg row) due ≡ true
      → IsOther claimed row
  any-same-IsOther row [] others taken = absurd (ground arith)
  any-same-IsOther row (leg ∷ due) others taken = elim (Bool-cases (same_leg row leg)) [
    | inl same ↦
        let trip : row.trip_id ≡ leg.trip_id = ground (arith, eq_iff row.trip_id leg.trip_id) in
        let own : row.leg_id ≡ leg.leg_id = ground (arith, eq_iff row.leg_id leg.leg_id) in
        any-same-ids row leg claimed trip own ∙ others.0
    | inr apart ↦ any-same-IsOther row due others.1 (ground arith)
  ]

pub is_of-IsOther :
    (held : ScheduledLeg) (row : Leg) (legs : List Leg)
    → any (is_of held) legs ≡ false
    → is_claimed held row ≡ true
    → any (same_leg row) legs ≡ false
is_of-IsOther held row [] others matched = refl
is_of-IsOther held row (leg ∷ legs) others matched =
    let rest = is_of-IsOther held row legs (ground arith) matched in
    ground (
      arith,
      eq_iff row.trip_id held.trip_id,
      eq_iff row.leg_id held.leg_id,
      eq_iff leg.trip_id held.trip_id,
      eq_iff leg.leg_id held.leg_id,
      eq_iff row.trip_id leg.trip_id,
      eq_iff row.leg_id leg.leg_id,
    )
