-- ===== src/Schedule/Leases.antt =====
-- What a claim of due legs returns.
use flight_multi_agent.Base.{
  ℕ, zero, suc, ◌+◌, ◌*◌, ◌≤◌, ◌≡◌, refl, String, Bool, not, ◌&&◌, Option, some, List, [], ◌∷◌, map,
  filter, take, length, length-take-le, All, arith, Bool-cases, inl, inr,
}
use flight_multi_agent.Schedule.{
  Leg, is_due, leased, chosen, claim_due_legs, in_order, place, is_before, second,
}

module _ (P : Leg → Type 0) where
  -- What holds of every row holds of every row that is ordered and taken.
  place-All : (leg : Leg) (legs : List Leg) → P leg → All P legs → All P (place leg legs)
  unfolding place
  place-All leg [] holds each = (holds, tt)
  place-All leg (first ∷ legs) holds each =
      let later = place-All leg legs holds each.1 in
      elim (Bool-cases (is_before leg first)) [
        | inl earlier ↦ rw earlier (holds, each)
        | inr after ↦ rw after (each.0, later)
      ]

  pub in_order-All : (legs : List Leg) → All P legs → All P (in_order legs)
  unfolding in_order
  in_order-All [] each = tt
  in_order-All (leg ∷ legs) each = place-All leg (in_order legs) each.0 (in_order-All legs each.1)

  pub take-All : (n : ℕ) (legs : List Leg) → All P legs → All P (take n legs)
  take-All zero legs each = tt
  take-All (suc n) [] each = tt
  take-All (suc n) (leg ∷ legs) each = (each.0, take-All n legs each.1)

pub map-leased :
    (P : Leg → Type 0) (until : ℕ) (legs : List Leg)
    → ((leg : Leg) → P leg → P (leased until leg))
    → All P legs
    → All P (map (leased until) legs)
map-leased P until [] keeps each = tt
map-leased P until (leg ∷ legs) keeps each =
    (keeps leg each.0, map-leased P until legs keeps each.1)

length-map-leased : (until : ℕ) (legs : List Leg) → length (map (leased until) legs) ≡ length legs
length-map-leased until [] = refl
length-map-leased until (leg ∷ legs) = omega (arith, length-map-leased until legs)

each-leased :
    (until : ℕ) (legs : List Leg)
    → All (λ leg. leg.lease_until ≡ some until) (map (leased until) legs)
each-leased until [] = tt
each-leased until (leg ∷ legs) = (refl, each-leased until legs)

-- A claim returns at most the number of legs that it may take, and each is leased until the lease
-- ends.
pub claim_due_legs-bounds :
    (locked : Leg → Bool) (now maximum seconds : ℕ) (trip : Option String) (legs : List Leg)
    → let claimed = (claim_due_legs locked now maximum seconds trip legs).0 in
      (length claimed ≤ maximum)
      × All (λ leg. leg.lease_until ≡ some (now + seconds * second)) claimed
unfolding claim_due_legs chosen
claim_due_legs-bounds locked now maximum seconds trip legs =
    let until = now + seconds * second in
    let due = chosen locked now maximum seconds trip legs in
    (
      omega (
        arith,
        length-map-leased until due,
        length-take-le maximum
            (in_order (filter (λ leg. is_due now trip leg && not (locked leg)) legs)),
      ),
      each-leased until due,
    )
