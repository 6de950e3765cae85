-- ===== src/Offers/Filter.antt =====
-- flight_agent/flight_search.py, `rank_feasible_options`: which options are left out, and why.
use flight_multi_agent.Base.{
  ℕ, ◌+◌, ◌*◌, String, Bool, true, false, not, ◌||◌, Option, none, some, List, [], ◌∷◌, ◌++◌, any,
  length, leb, ltb, if◌then◌else◌, str_eq, get_or,
}
use flight_multi_agent.Base.Assoc.{Dict, lookup, insert}
use flight_multi_agent.Base.Result.{Result, ok, ◌>>=◌}
use flight_multi_agent.Clock.{IsoFormat, parse_timestamp, minute}
use flight_multi_agent.Offers.{FlightOption, SearchCommand, Segment}

abbrev pub last_of : Segment → List Segment → Segment
last_of s [] = s
last_of s (t ∷ segments) = last_of t segments

abbrev pub last_segment : FlightOption → Segment
last_segment o = last_of o.first_segment o.later_segments

abbrev pub stops_of : FlightOption → ℕ
stops_of o = length o.later_segments

-- Each segment with the one after it.
abbrev pub joins_of : Segment → List Segment → List (Segment × Segment)
joins_of s [] = []
joins_of s (t ∷ segments) = (s, t) ∷ joins_of t segments

-- Python's `any`, with tests that may raise: later ones are not made after one that holds.
abbrev pub any_result {ℓ} : {A : Type ℓ} → (A → Result Bool) → List A → Result Bool
any_result test [] = ok false
any_result test (x ∷ xs) =
    let rest = any_result test xs in test x >>= λ held. if held then ok true else rest

abbrev pub is_broken : Segment × Segment → Bool
is_broken (a, b) = not (str_eq a.destination b.origin)

module _ (iso : IsoFormat) where
  unfoldable pub has_expired : String → Option String → Result Bool
  has_expired searched_at none = ok false
  has_expired searched_at (some expires_at) = do
    expiry ← parse_timestamp iso expires_at
    searched ← parse_timestamp iso searched_at
    ok (leb expiry searched)

  unfoldable pub is_backward : Segment → Result Bool
  is_backward s = do
    arrival ← parse_timestamp iso s.arrival_at
    departure ← parse_timestamp iso s.departure_at
    ok (leb arrival departure)

  unfoldable pub is_too_short : ℕ → Segment × Segment → Result Bool
  is_too_short minimum_minutes (a, b) = do
    departure ← parse_timestamp iso b.departure_at
    arrival ← parse_timestamp iso a.arrival_at
    ok (ltb departure (arrival + minimum_minutes * minute))

  module _ (command : SearchCommand) (searched_at : String) (earliest latest : ℕ) where
    -- The tests of the segments' times, after those of the option as a whole.
    unfoldable pub segment_reason : FlightOption → ℕ → ℕ → Result (Option String)
    segment_reason o departure arrival = do
      backward ← any_result is_backward (o.first_segment ∷ o.later_segments)
      short ←
          if backward || any is_broken (joins_of o.first_segment o.later_segments)
          then ok false
          else any_result (is_too_short command.minimum_connection_minutes)
              (joins_of o.first_segment o.later_segments)
      ok (
          if backward
          then some "INVALID_SEGMENT_TIME"
          else if any is_broken (joins_of o.first_segment o.later_segments)
          then some "BROKEN_CONNECTION"
          else if short
          then some "CONNECTION_TOO_SHORT"
          else if leb arrival departure
          then some "INVALID_ITINERARY_TIME"
          else if any (λ s. str_eq s.flight_iata command.original_flight_iata)
              (o.first_segment ∷ o.later_segments)
          then some "ORIGINAL_FLIGHT"
          else none)

    unfoldable pub option_reason : FlightOption → ℕ → ℕ → Result (Option String)
    option_reason o departure arrival =
        if not (str_eq o.first_segment.origin command.origin)
          || not (str_eq (last_segment o).destination command.destination)
        then ok (some "ROUTE_MISMATCH")
        else if ltb departure earliest || ltb latest departure
        then ok (some "OUTSIDE_SEARCH_WINDOW")
        else if ltb command.maximum_stops (stops_of o)
        then ok (some "TOO_MANY_STOPS")
        else has_expired searched_at o.offer_expires_at >>= λ expired.
            if expired then ok (some "OFFER_EXPIRED") else segment_reason o departure arrival

    -- Why an option is left out, if it is.
    unfoldable pub rejection : FlightOption → Result (Option String)
    unfolding option_reason segment_reason has_expired
    rejection o = do
      departure ← parse_timestamp iso o.first_segment.departure_at
      arrival ← parse_timestamp iso (last_segment o).arrival_at
      option_reason o departure arrival

    abbrev pub bump : String → Dict ℕ → Dict ℕ
    bump reason counts = insert reason (get_or (lookup reason counts) 0 + 1) counts

    -- The loop over the options: those that are left, and the counts of the reasons.
    unfoldable pub sift :
        List FlightOption → List FlightOption × Dict ℕ → Result (List FlightOption × Dict ℕ)
    sift [] state = ok state
    sift (o ∷ options) (eligible, counts) = rejection o >>= λ reason. elim reason [
      | none ↦ sift options (eligible ++ o ∷ [], counts)
      | some text ↦ sift options (eligible, bump text counts)
    ]
