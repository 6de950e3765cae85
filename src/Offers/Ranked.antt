-- ===== src/Offers/Ranked.antt =====
-- The ranked options of a search: each is feasible, none is lost, and they are in order.
use flight_multi_agent.Base.{
  ℕ, suc, ◌+◌, ◌≤◌, ◌<◌, ◌≡◌, ◌⊎◌, refl, ap, sym, String, none, some, List, [], ◌∷◌, ◌++◌, All,
  length, length-append, arith, inl, inr,
}
use mathlib.Core.Path.{subst}
use flight_multi_agent.Base.Assoc.{Dict}
use flight_multi_agent.Base.Result.{ok, Result-cases, >>=-eq-ok, ok-ensures, ok-injective}
use flight_multi_agent.Clock.{IsoFormat, parse_timestamp}
use flight_multi_agent.Offers.{FlightOption, SearchCommand, SearchResult, RankedOption}
use flight_multi_agent.Offers.Filter.{last_segment, stops_of, rejection, sift, bump}
use flight_multi_agent.Offers.Ranking.{
  Keyed, arrange, numbered, sorted_counts, keyed_option, keyed_options, rank_feasible_options,
}
use flight_multi_agent.Offers.Feasible.{eligible-IsKept, IsKept, All-map}
use flight_multi_agent.Offers.Order.{
  IsChain, total, IsBefore, arrange-IsChain, length-arrange, length-numbered, arrange-All,
  total-bump, total-sorted_counts,
}

-- The ranks count up from a number.
abbrev pub IsNumbered : ℕ → List RankedOption → Type 0
IsNumbered rank [] = Unit
IsNumbered rank (r ∷ ranked) = (r.rank ≡ rank) × IsNumbered (suc rank) ranked

numbered-IsNumbered : (rank : ℕ) (keyed : List Keyed) → IsNumbered rank (numbered rank keyed)
unfolding numbered
numbered-IsNumbered rank [] = tt
numbered-IsNumbered rank (k ∷ keyed) = (refl, numbered-IsNumbered (suc rank) keyed)

module _ (iso : IsoFormat) where
  -- The key of an option is what its texts say.
  record IsKey (k : Keyed) : Type 0 where
    arrives : parse_timestamp iso (last_segment k.option).arrival_at ≡ ok k.arrival
    same_stops : k.stops ≡ stops_of k.option

  keyed_option-IsKey :
      (o : FlightOption) (k : Keyed) → keyed_option iso o ≡ ok k → IsKey k × (k.option ≡ o)
  unfolding keyed_option
  keyed_option-IsKey o k made =
      let (arrival, arrives, later) =
        >>=-eq-ok (parse_timestamp iso (last_segment o).arrival_at) _ made in
      let (departure, leaves, at_last) =
        >>=-eq-ok (parse_timestamp iso o.first_segment.departure_at) _ later in
      ok-ensures (λ k. IsKey k × (k.option ≡ o))
        ((record { arrives = arrives; same_stops = refl }, refl)) at_last

  module _ (P : FlightOption → Type 0) where
    keyed_options-All :
        (options : List FlightOption) {keyed : List Keyed}
        → All P options
        → keyed_options iso options ≡ ok keyed
        → All (λ k. IsKey k × P k.option) keyed
    unfolding keyed_options
    keyed_options-All [] h made = ok-ensures (All (λ k. IsKey k × P k.option)) tt made
    keyed_options-All (o ∷ options) h made =
        let (k, first, later) = >>=-eq-ok (keyed_option iso o) _ made in
        let (keyed, others, at_last) = >>=-eq-ok (keyed_options iso options) _ later in
        let (key, same) = keyed_option-IsKey o k first in
        ok-ensures (All (λ k. IsKey k × P k.option))
          (((key, subst P (sym same) h.0), keyed_options-All options h.1 others)) at_last

    numbered-All :
        (rank : ℕ) (keyed : List Keyed)
        → All (λ k. IsKey k × P k.option) keyed
        → All (λ r. P r.option) (numbered rank keyed)
    unfolding numbered
    numbered-All rank [] h = tt
    numbered-All rank (k ∷ keyed) h = (h.0.1, numbered-All (suc rank) keyed h.1)

  -- One ranked option comes before another: the earlier arrival first, and of two that arrive at
  -- once the one with no more stops.
  pub record IsRankedBefore (a b : RankedOption) : Type 0 where
    pub arrival : ℕ
    pub next_arrival : ℕ
    pub arrives : parse_timestamp iso a.arrival_at ≡ ok arrival
    pub next_arrives : parse_timestamp iso b.arrival_at ≡ ok next_arrival
    pub order : (arrival < next_arrival) ⊎ ((arrival ≡ next_arrival) × (a.stops ≤ b.stops))

  numbered-IsChain :
      (rank : ℕ) (keyed : List Keyed)
      → All IsKey keyed
      → IsChain IsBefore keyed
      → IsChain IsRankedBefore (numbered rank keyed)
  unfolding numbered
  numbered-IsChain rank [] h chain = tt
  numbered-IsChain rank (k ∷ []) h chain = (tt, tt)
  numbered-IsChain rank (k ∷ next ∷ keyed) h chain = (
    record {
      arrival = k.arrival;
      next_arrival = next.arrival;
      arrives = h.0.arrives;
      next_arrives = h.1.0.arrives;
      order = ground (arith, h.0.same_stops, h.1.0.same_stops, chain.0);
    },
    numbered-IsChain (suc rank) (next ∷ keyed) h.1 chain.1,
  )

  length-keyed_options :
      (options : List FlightOption) {keyed : List Keyed}
      → keyed_options iso options ≡ ok keyed
      → length keyed ≡ length options
  unfolding keyed_options
  length-keyed_options [] made = ok-ensures (λ k. length k ≡ 0) refl made
  length-keyed_options (o ∷ options) made =
      let (k, first, later) = >>=-eq-ok (keyed_option iso o) _ made in
      let (keyed, others, at_last) = >>=-eq-ok (keyed_options iso options) _ later in
      ok-ensures (λ l. length l ≡ suc (length options))
        (ap suc (length-keyed_options options others)) at_last

  sift-conserves :
      (command : SearchCommand) (searched_at : String) (earliest latest : ℕ)
      (options kept : List FlightOption) (counts : Dict ℕ) {last : List FlightOption × Dict ℕ}
      → sift iso command searched_at earliest latest options (kept, counts) ≡ ok last
      → length last.0 + total last.1 ≡ length options + length kept + total counts
  unfolding sift
  sift-conserves command searched_at earliest latest [] kept counts returned =
      ok-ensures (λ l. length l.0 + total l.1 ≡ 0 + length kept + total counts) (omega arith)
        returned
  sift-conserves command searched_at earliest latest (o ∷ options) kept counts {last = last}
        returned =
      elim (Result-cases (rejection iso command searched_at earliest latest o)) [
        | inl (e, raised) ↦ absurd (ground arith)
        | inr (none, left) ↦ ground (
          arith,
          length-append kept (o ∷ []),
          sift-conserves command searched_at earliest latest options (kept ++ o ∷ []) counts
              {last = last} (ground arith),
        )
        | inr (some reason, out) ↦ ground (
          arith,
          total-bump reason counts,
          sift-conserves command searched_at earliest latest options kept
              (bump iso command searched_at earliest latest reason counts) {last = last}
              (ground arith),
        )
      ]

  module _ (command : SearchCommand) (result : SearchResult) where
    -- The steps of a ranking that returns.
    record Steps (answer : List RankedOption × Dict ℕ) : Type 0 where
      earliest : ℕ
      latest : ℕ
      first_time : parse_timestamp iso command.earliest_departure_at ≡ ok earliest
      last_time : parse_timestamp iso command.latest_departure_at ≡ ok latest
      sifted : List FlightOption × Dict ℕ
      left : sift iso command result.searched_at earliest latest result.options ([], []) ≡ ok sifted
      keyed : List Keyed
      keys : keyed_options iso sifted.0 ≡ ok keyed
      made : (numbered 1 (arrange keyed), sorted_counts sifted.1) ≡ answer

    steps :
        (answer : List RankedOption × Dict ℕ)
        → rank_feasible_options iso command result ≡ ok answer
        → Steps answer
    unfolding rank_feasible_options
    steps answer returned =
        let (earliest, first_time, a) =
          >>=-eq-ok (parse_timestamp iso command.earliest_departure_at) _ returned in
        let (latest, last_time, b) =
          >>=-eq-ok (parse_timestamp iso command.latest_departure_at) _ a in
        let (sifted, left, c) =
          >>=-eq-ok (sift iso command result.searched_at earliest latest result.options ([], [])) _
            b in
        let (keyed, keys, d) = >>=-eq-ok (keyed_options iso sifted.0) _ c in
        record {
          earliest = earliest;
          latest = latest;
          first_time = first_time;
          last_time = last_time;
          sifted = sifted;
          left = left;
          keyed = keyed;
          keys = keys;
          made = ok-injective d;
        }

    -- Every option that is ranked is one of the provider's, and is feasible for the search:
    -- its route, its departure in the window, its stops, its offer, the times and the joins of its
    -- segments, and that none of them is the disrupted flight.
    pub rank-IsFeasible :
        (answer : List RankedOption × Dict ℕ)
        → rank_feasible_options iso command result ≡ ok answer
        → (earliest : ℕ) × (latest : ℕ) × (parse_timestamp iso command.earliest_departure_at
            ≡ ok earliest)
          × (parse_timestamp iso command.latest_departure_at ≡ ok latest)
          × All
              (λ r. IsKept iso command result.searched_at earliest latest result.options r.option)
              answer.0
    rank-IsFeasible answer returned =
        let s = steps answer returned in
        let P = IsKept iso command result.searched_at s.earliest s.latest result.options in
        let kept =
          eligible-IsKept iso command result.searched_at s.earliest s.latest result.options
            s.left in
        (
          s.earliest,
          s.latest,
          s.first_time,
          s.last_time,
          subst (λ a. All (λ r. P r.option) a.0) s.made
              (numbered-All P 1 (arrange s.keyed) (
                arrange-All (λ k. IsKey k × P k.option) s.keyed
                  (keyed_options-All P s.sifted.0 kept s.keys))),
        )

    -- No option is lost: those that are ranked and those that are counted as rejected are together
    -- as many as the provider's.
    pub rank-conserves :
        (answer : List RankedOption × Dict ℕ)
        → rank_feasible_options iso command result ≡ ok answer
        → length answer.0 + total answer.1 ≡ length result.options
    rank-conserves answer returned =
        let s = steps answer returned in
        let conserved =
          sift-conserves command result.searched_at s.earliest s.latest result.options [] []
            s.left in
        subst (λ a. length a.0 + total a.1 ≡ length result.options) s.made
          (ground (
            arith,
            conserved,
            length-numbered 1 (arrange s.keyed),
            length-arrange s.keyed,
            length-keyed_options s.sifted.0 s.keys,
            total-sorted_counts s.sifted.1,
          ))

    -- The ranks are 1, 2 and so on, and each ranked option arrives before the next one, or at once
    -- with no more stops.
    pub rank-IsSorted :
        (answer : List RankedOption × Dict ℕ)
        → rank_feasible_options iso command result ≡ ok answer
        → IsNumbered 1 answer.0 × IsChain IsRankedBefore answer.0
    rank-IsSorted answer returned =
        let s = steps answer returned in
        let kept =
          eligible-IsKept iso command result.searched_at s.earliest s.latest result.options
            s.left in
        let keys =
          keyed_options-All (λ _. Unit) s.sifted.0 (All-map (λ _ _. tt) s.sifted.0 kept) s.keys in
        subst (λ a. IsNumbered 1 a.0 × IsChain IsRankedBefore a.0) s.made
          (
            numbered-IsNumbered 1 (arrange s.keyed),
            numbered-IsChain 1 (arrange s.keyed)
                (arrange-All IsKey s.keyed (All-map (λ k h. h.0) s.keyed keys))
                (arrange-IsChain s.keyed),
          )
