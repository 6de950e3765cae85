-- ===== src/Trips/Departures.antt =====
-- The legs of a trip in the order of their departure, and which of the table they are.
use flight_multi_agent.Base.{
  ◌+◌, ◌≡◌, inl, inr, refl, ap, ◌∙◌, String, Bool, true, false, ◌||◌, List, [], ◌∷◌, ◌++◌, any, All,
  length, arith, eq_iff, Bool-cases, map, filter,
}
use flight_multi_agent.Schedule.{Leg}
use flight_multi_agent.Trips.{is_leg_of, insert_departure, by_departure, departs_before}

-- The order keeps what all rows have, and what some row has.
module _ (leg : Leg) where
  insert_departure-length : (legs : List Leg) → length (insert_departure leg legs) ≡ 1 + length legs
  unfolding insert_departure
  insert_departure-length [] = refl
  insert_departure-length (first ∷ legs) = let rest = insert_departure-length legs in ground arith

  insert_departure-any :
      (p : Leg → Bool) (legs : List Leg) → any p (insert_departure leg legs) ≡ (p leg || any p legs)
  unfolding insert_departure
  insert_departure-any p [] = refl
  insert_departure-any p (first ∷ legs) =
      let rest = insert_departure-any p legs in
      elim (Bool-cases (departs_before leg first)) [
        | inl earlier ↦ ground arith
        | inr after ↦ ground arith
      ]

  insert_departure-All :
      (P : Leg → Type 0) (legs : List Leg) → P leg → All P legs → All P (insert_departure leg legs)
  unfolding insert_departure
  insert_departure-All P [] holds each = (holds, tt)
  insert_departure-All P (first ∷ legs) holds each =
      let rest = insert_departure-All P legs holds each.1 in
      elim (Bool-cases (departs_before leg first)) [
        | inl earlier ↦ rw earlier (holds, each)
        | inr after ↦ rw after (each.0, rest)
      ]

pub by_departure-length : (legs : List Leg) → length (by_departure legs) ≡ length legs
unfolding by_departure
by_departure-length [] = refl
by_departure-length (leg ∷ legs) =
    let rest = by_departure-length legs in
    let put = insert_departure-length leg (by_departure legs) in omega (arith, rest, put)

pub by_departure-any : (p : Leg → Bool) (legs : List Leg) → any p (by_departure legs) ≡ any p legs
unfolding by_departure
by_departure-any p [] = refl
by_departure-any p (leg ∷ legs) =
    insert_departure-any leg p (by_departure legs) ∙ ap (λ b. p leg || b) (by_departure-any p legs)

pub by_departure-All : (P : Leg → Type 0) (legs : List Leg) → All P legs → All P (by_departure legs)
unfolding by_departure
by_departure-All P [] each = tt
by_departure-All P (leg ∷ legs) each =
    insert_departure-All leg P (by_departure legs) each.0 (by_departure-All P legs each.1)

pub filter-rows :
    (trip_id : String) (rows legs : List Leg)
    → All (λ leg. leg.trip_id ≡ trip_id) rows
    → any (is_leg_of trip_id) legs ≡ false
    → filter (is_leg_of trip_id) (rows ++ legs) ≡ rows
filter-rows trip_id [] [] own others = refl
filter-rows trip_id [] (leg ∷ legs) own others =
    let rest = filter-rows trip_id [] legs tt (ground arith) in ground arith
filter-rows trip_id (row ∷ rows) legs own others =
    let rest = filter-rows trip_id rows legs own.1 others in
    let same = (eq_iff row.trip_id trip_id).1 own.0 in ground arith

any-append :
    {A : Type 0} (p : A → Bool) (xs ys : List A) → any p (xs ++ ys) ≡ (any p xs || any p ys)
any-append p [] ys = refl
any-append p (x ∷ xs) ys = let rest = any-append p xs ys in ground arith

pub any-left :
    {A : Type 0} (p : A → Bool) (xs ys : List A) → any p xs ≡ true → any p (xs ++ ys) ≡ true
any-left p xs ys found = let parts = any-append p xs ys in ground arith

pub any-right :
    {A : Type 0} (p : A → Bool) (xs ys : List A) → any p ys ≡ true → any p (xs ++ ys) ≡ true
any-right p xs ys found =
    let parts = any-append p xs ys in
    elim (Bool-cases (any p xs)) [ inl seen ↦ ground arith | inr missed ↦ ground arith ]

pub any-mapped-by :
    {A B : Type 0} (p : B → Bool) (f : A → B) (xs : List A)
    → any p (map f xs) ≡ any (λ x. p (f x)) xs
any-mapped-by p f [] = refl
any-mapped-by p f (x ∷ xs) = let rest = any-mapped-by p f xs in ground arith

pub length-mapped-by : {A B : Type 0} (f : A → B) (xs : List A) → length (map f xs) ≡ length xs
length-mapped-by f [] = refl
length-mapped-by f (x ∷ xs) = omega (arith, length-mapped-by f xs)

pub All-mapped-by :
    {A B : Type 0} (P : B → Type 0) (f : A → B) (xs : List A)
    → All (λ x. P (f x)) xs
    → All P (map f xs)
All-mapped-by P f [] each = tt
All-mapped-by P f (x ∷ xs) each = (each.0, All-mapped-by P f xs each.1)

pub append_assoc : {A : Type 0} (xs ys zs : List A) → xs ++ (ys ++ zs) ≡ (xs ++ ys) ++ zs
append_assoc [] ys zs = refl
append_assoc (x ∷ xs) ys zs = ap (λ l. x ∷ l) (append_assoc xs ys zs)
