-- ===== src/Offers/Feasible.antt =====
-- The options that `rank_feasible_options` leaves in are feasible for the search.
use mathlib.Core.List.{Memᴰ}
use flight_multi_agent.Base.{
  ℕ, ◌+◌, ◌*◌, ◌≤◌, ◌<◌, ◌≡◌, ◌≢◌, refl, String, Bool, true, false, none, some, List, [], ◌∷◌, ◌++◌,
  All, All-append, any, str_eq, eq_iff, arith, inl, inr,
}
use flight_multi_agent.Base.Assoc.{Dict}
use flight_multi_agent.Base.Result.{Result, ok, Result-cases, >>=-eq-ok, ok-ensures}
use flight_multi_agent.Clock.{IsoFormat, parse_timestamp, minute}
use flight_multi_agent.Offers.{Segment, FlightOption, SearchCommand}
use flight_multi_agent.Offers.Filter.{
  last_segment, stops_of, joins_of, any_result, is_broken, is_backward, is_too_short, option_reason,
  segment_reason, has_expired, rejection, sift, bump,
}

any_result-false :
    {A : Type 0} (test : A → Result Bool) (xs : List A)
    → any_result test xs ≡ ok false
    → All (λ x. test x ≡ ok false) xs
any_result-false test [] none_held = tt
any_result-false test (x ∷ xs) none_held = ground (arith, any_result-false test xs)

any-false :
    {A : Type 0} (test : A → Bool) (xs : List A)
    → any test xs ≡ false
    → All (λ x. test x ≡ false) xs
any-false test [] none_held = tt
any-false test (x ∷ xs) none_held = ground (arith, any-false test xs)

pub All-map :
    {A : Type 0} {P Q : A → Type 0} → ((x : A) → P x → Q x) → (xs : List A) → All P xs → All Q xs
All-map f [] h = tt
All-map f (x ∷ xs) h = (f x h.0, All-map f xs h.1)

All-zip :
    {A : Type 0} {P Q R : A → Type 0}
    → ((x : A) → P x → Q x → R x)
    → (xs : List A) → All P xs
    → All Q xs
    → All R xs
All-zip f [] h k = tt
All-zip f (x ∷ xs) h k = (f x h.0 k.0, All-zip f xs h.1 k.1)

All-Memᴰ : {A : Type 0} {P : A → Type 0} (xs : List A) → ((x : A) → Memᴰ x xs → P x) → All P xs
All-Memᴰ [] f = tt
All-Memᴰ (x ∷ xs) f = (f x (Memᴰ.head refl), All-Memᴰ xs (λ y m. f y (Memᴰ.tail m)))

module _ (iso : IsoFormat) where
  -- A segment ends after it starts.
  pub record IsTimed (s : Segment) : Type 0 where
    pub departure : ℕ
    pub arrival : ℕ
    pub leaves : parse_timestamp iso s.departure_at ≡ ok departure
    pub arrives : parse_timestamp iso s.arrival_at ≡ ok arrival
    pub forward : departure < arrival

  -- A segment starts where the one before it ends, with at least some minutes in between.
  pub record IsConnected (minutes : ℕ) (join : Segment × Segment) : Type 0 where
    pub same_place : join.0.destination ≡ join.1.origin
    pub arrival : ℕ
    pub departure : ℕ
    pub arrives : parse_timestamp iso join.0.arrival_at ≡ ok arrival
    pub leaves : parse_timestamp iso join.1.departure_at ≡ ok departure
    pub in_time : arrival + minutes * minute ≤ departure

  timed : (s : Segment) → is_backward iso s ≡ ok false → IsTimed s
  unfolding is_backward
  timed s forward = elim (Result-cases (parse_timestamp iso s.arrival_at)) [
    | inl (e, raised) ↦ absurd (ground arith)
    | inr (a, arrives) ↦ elim (Result-cases (parse_timestamp iso s.departure_at)) [
      | inl (e, raised) ↦ absurd (ground arith)
      | inr (d, leaves) ↦ record {
        departure = d;
        arrival = a;
        leaves = leaves;
        arrives = arrives;
        forward = ground arith;
      }
    ]
  ]

  connected :
      (minutes : ℕ) (join : Segment × Segment)
      → is_broken join ≡ false
      → is_too_short iso minutes join ≡ ok false
      → IsConnected minutes join
  unfolding is_too_short
  connected minutes (s, t) whole long = elim (Result-cases (parse_timestamp iso t.departure_at)) [
    | inl (e, raised) ↦ absurd (ground arith)
    | inr (d, leaves) ↦ elim (Result-cases (parse_timestamp iso s.arrival_at)) [
      | inl (e, raised) ↦ absurd (ground arith)
      | inr (a, arrives) ↦ record {
        same_place = ground (arith, eq_iff s.destination t.origin);
        arrival = a;
        departure = d;
        arrives = arrives;
        leaves = leaves;
        in_time = ground arith;
      }
    ]
  ]

  module _ (command : SearchCommand) (searched_at : String) (earliest latest : ℕ) where
    -- What an option that is offered to the traveller has to be.
    pub record IsFeasible (o : FlightOption) : Type 0 where
      pub from_origin : o.first_segment.origin ≡ command.origin
      pub to_destination : (last_segment o).destination ≡ command.destination
      pub departure : ℕ
      pub arrival : ℕ
      pub leaves : parse_timestamp iso o.first_segment.departure_at ≡ ok departure
      pub arrives : parse_timestamp iso (last_segment o).arrival_at ≡ ok arrival
      pub not_early : earliest ≤ departure
      pub not_late : departure ≤ latest
      pub forward : departure < arrival
      pub few_stops : stops_of o ≤ command.maximum_stops
      pub unexpired : has_expired iso searched_at o.offer_expires_at ≡ ok false
      pub timed : All IsTimed (o.first_segment ∷ o.later_segments)
      pub connected :
          All
            (IsConnected command.minimum_connection_minutes)
            (joins_of o.first_segment o.later_segments)
      pub other_flight :
          All
            (λ s. s.flight_iata ≢ command.original_flight_iata)
            (o.first_segment ∷ o.later_segments)

    other :
        (s : Segment)
        → str_eq s.flight_iata command.original_flight_iata ≡ false
        → s.flight_iata ≢ command.original_flight_iata
    other s differs same = ground (arith, eq_iff s.flight_iata command.original_flight_iata)

    segment-IsFeasible :
        (o : FlightOption) (departure arrival : ℕ)
        → segment_reason iso command searched_at earliest latest o departure arrival ≡ ok none
        → (any_result (is_backward iso) (o.first_segment ∷ o.later_segments) ≡ ok false)
          × (any is_broken (joins_of o.first_segment o.later_segments) ≡ false)
          × (any_result
                (is_too_short iso command.minimum_connection_minutes)
                (joins_of o.first_segment o.later_segments)
              ≡ ok false)
          × (departure < arrival)
          × (any
                (λ s. str_eq s.flight_iata command.original_flight_iata)
                (o.first_segment ∷ o.later_segments)
              ≡ false)
    unfolding segment_reason
    segment-IsFeasible o departure arrival kept = ground arith

    -- An option that is not rejected is feasible.
    pub rejection-IsFeasible :
        (o : FlightOption)
        → rejection iso command searched_at earliest latest o ≡ ok none
        → IsFeasible o
    unfolding rejection option_reason
    rejection-IsFeasible o kept =
        let (departure, leaves, later) =
          >>=-eq-ok (parse_timestamp iso o.first_segment.departure_at) _ kept in
        let (arrival, arrives, at_last) =
          >>=-eq-ok (parse_timestamp iso (last_segment o).arrival_at) _ later in
        elim (Result-cases (has_expired iso searched_at o.offer_expires_at)) [
          | inl (e, raised) ↦ absurd (ground arith)
          | inr (true, held) ↦ absurd (ground arith)
          | inr (false, held) ↦
              let (none_backward, none_broken, none_short, forward, none_original) =
                segment-IsFeasible o departure arrival (ground arith) in
              record {
                from_origin = ground (arith, eq_iff o.first_segment.origin command.origin);
                to_destination =
                    ground (arith, eq_iff (last_segment o).destination command.destination);
                departure = departure;
                arrival = arrival;
                leaves = leaves;
                arrives = arrives;
                not_early = ground arith;
                not_late = ground arith;
                forward = forward;
                few_stops = ground arith;
                unexpired = held;
                timed = All-map timed (o.first_segment ∷ o.later_segments) (
                    any_result-false (is_backward iso) (o.first_segment ∷ o.later_segments)
                      none_backward);
                connected =
                    All-zip (connected command.minimum_connection_minutes)
                      (joins_of o.first_segment o.later_segments)
                      (any-false is_broken (joins_of o.first_segment o.later_segments) none_broken)
                      (any_result-false (is_too_short iso command.minimum_connection_minutes)
                        (joins_of o.first_segment o.later_segments) none_short);
                other_flight = All-map other (o.first_segment ∷ o.later_segments) (
                    any-false (λ s. str_eq s.flight_iata command.original_flight_iata)
                      (o.first_segment ∷ o.later_segments) none_original);
              }
        ]

    module _ (options : List FlightOption) where
      -- Those that are left are options of the provider, and all are feasible.
      pub IsKept : FlightOption → Type 0
      IsKept o = Memᴰ o options × IsFeasible o

      sift-IsKept :
          (rest kept : List FlightOption) (counts : Dict ℕ) {last : List FlightOption × Dict ℕ}
          → All (λ o. Memᴰ o options) rest
          → All IsKept kept
          → sift iso command searched_at earliest latest rest (kept, counts) ≡ ok last
          → All IsKept last.0
      unfolding sift IsKept
      sift-IsKept [] kept counts h k returned = ok-ensures (λ l. All IsKept l.0) k returned
      sift-IsKept (o ∷ rest) kept counts {last = last} h k returned =
          elim (Result-cases (rejection iso command searched_at earliest latest o)) [
            | inl (e, raised) ↦ absurd (ground arith)
            | inr (none, left) ↦
                sift-IsKept rest (kept ++ o ∷ []) counts {last = last} h.1
                  (All-append IsKept kept (o ∷ []) k ((h.0, rejection-IsFeasible o left), tt))
                  (ground arith)
            | inr (some reason, out) ↦
                sift-IsKept rest kept (bump iso command searched_at earliest latest reason counts)
                  {last = last} h.1 k (ground arith)
          ]

      pub eligible-IsKept :
          {last : List FlightOption × Dict ℕ}
          → sift iso command searched_at earliest latest options ([], []) ≡ ok last
          → All IsKept last.0
      eligible-IsKept returned = sift-IsKept options [] [] (All-Memᴰ options (λ o m. m)) tt returned
