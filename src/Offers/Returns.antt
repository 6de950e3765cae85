-- ===== src/Offers/Returns.antt =====
-- A ranking returns where every time that it reads is a timestamp.
use flight_multi_agent.Base.{
  ℕ, ◌+◌, ◌≡◌, refl, String, Bool, true, false, ◌||◌, Option, none, some, List, [], ◌∷◌, ◌++◌, All,
  All-append, any, Option-cases, inl, inr, length, arith, leb, ltb, not, str_eq, ◌*◌, if◌then◌else◌,
}
use flight_multi_agent.Base.Assoc.{Dict}
use flight_multi_agent.Base.Result.{Result, ok, ◌>>=◌}
use flight_multi_agent.Clock.{IsoFormat, parse_timestamp, minute}
use flight_multi_agent.Offers.{Segment, FlightOption, SearchCommand, SearchResult, RankedOption}
use flight_multi_agent.Offers.Filter.{
  last_of, joins_of, any_result, is_broken, is_backward, is_too_short, has_expired, segment_reason,
  option_reason, rejection, sift, bump, last_segment, stops_of,
}
use flight_multi_agent.Offers.Ranking.{
  keyed_option, keyed_options, numbered, arrange, sorted_counts, rank_feasible_options,
}
use flight_multi_agent.Offers.Order.{total}
use flight_multi_agent.Offers.Ranked.{rank-conserves}

abbrev Returns : {A : Type 0} → Result A → Type 0
Returns {A} r = (a : A) × (r ≡ ok a)

>>=-Returns :
    {A B : Type 0} (first : Result A) (rest : A → Result B)
    → Returns first
    → ((a : A) → Returns (rest a))
    → Returns (first >>= rest)
>>=-Returns first rest (a, returned) h = let (b, last) = h a in (b, ground arith)

if-Returns :
    {A : Type 0} (b : Bool) (x y : Result A) → Returns x → Returns y → Returns (if b then x else y)
if-Returns true x y h k = h
if-Returns false x y h k = k

any_result-Returns :
    {A : Type 0} (test : A → Result Bool) (xs : List A)
    → All (λ x. Returns (test x)) xs
    → Returns (any_result test xs)
any_result-Returns test [] h = (false, refl)
any_result-Returns test (x ∷ xs) ((true, held), hs) = (true, ground arith)
any_result-Returns test (x ∷ xs) ((false, held), hs) =
    let (b, rest) = any_result-Returns test xs hs in (b, ground arith)

last_of-All :
    (P : Segment → Type 0) (s : Segment) (later : List Segment)
    → All P (s ∷ later)
    → P (last_of s later)
last_of-All P s [] h = h.0
last_of-All P s (t ∷ later) h = last_of-All P t later h.1

module _ (iso : IsoFormat) where
  -- A text is a timestamp.
  abbrev pub IsTime : String → Type 0
  IsTime text = (t : ℕ) × (parse_timestamp iso text ≡ ok t)

  abbrev IsTime? : Option String → Type 0
  IsTime? none = Unit
  IsTime? (some text) = IsTime text

  abbrev IsDatedSegment : Segment → Type 0
  IsDatedSegment s = IsTime s.departure_at × IsTime s.arrival_at

  -- Every time of an option is a timestamp.
  abbrev pub IsDated : FlightOption → Type 0
  IsDated o = IsTime? o.offer_expires_at × All IsDatedSegment (o.first_segment ∷ o.later_segments)

  is_backward-Returns :
      (segments : List Segment)
      → All IsDatedSegment segments
      → All (λ s. Returns (is_backward iso s)) segments
  unfolding is_backward
  is_backward-Returns [] h = tt
  is_backward-Returns (s ∷ segments) (((d, leaves), (a, arrives)), h) =
      ((leb a d, ground arith), is_backward-Returns segments h)

  is_too_short-Returns :
      (minutes : ℕ) (s : Segment) (later : List Segment)
      → All IsDatedSegment (s ∷ later)
      → All (λ join. Returns (is_too_short iso minutes join)) (joins_of s later)
  unfolding is_too_short
  is_too_short-Returns minutes s [] h = tt
  is_too_short-Returns minutes s (t ∷ later) ((_, (a, arrives)), (((d, leaves), last), h)) = (
    (ltb d (a + minutes * minute), ground arith),
    is_too_short-Returns minutes t later (((d, leaves), last), h),
  )

  has_expired-Returns :
      (searched_at : String) (expires : Option String)
      → IsTime searched_at
      → IsTime? expires
      → Returns (has_expired iso searched_at expires)
  unfolding has_expired
  has_expired-Returns searched_at none h k = (false, refl)
  has_expired-Returns searched_at (some text) (s, searched) (e, expiry) = (leb e s, ground arith)

  module _ (command : SearchCommand) (searched_at : String) (searched : IsTime searched_at)
      (earliest latest : ℕ) where
    segment_reason-Returns :
        (o : FlightOption) (departure arrival : ℕ)
        → IsDated o
        → Returns (segment_reason iso command searched_at earliest latest o departure arrival)
    unfolding segment_reason
    segment_reason-Returns o departure arrival dated =
        let segments = o.first_segment ∷ o.later_segments in
        let joins = joins_of o.first_segment o.later_segments in
        >>=-Returns (any_result (is_backward iso) segments) _
          (any_result-Returns (is_backward iso) segments (is_backward-Returns segments dated.1))
          (λ backward.
            >>=-Returns
              (if backward || any is_broken joins
                then ok false
                else any_result (is_too_short iso command.minimum_connection_minutes) joins)
              _
              (if-Returns (backward || any is_broken joins) (ok false) _ (false, refl)
                (any_result-Returns (is_too_short iso command.minimum_connection_minutes) joins (
                  is_too_short-Returns command.minimum_connection_minutes o.first_segment
                    o.later_segments dated.1)))
              (λ short. (_, refl)))

    option_reason-Returns :
        (o : FlightOption) (departure arrival : ℕ)
        → IsDated o
        → Returns (option_reason iso command searched_at earliest latest o departure arrival)
    unfolding option_reason
    option_reason-Returns o departure arrival dated =
        if-Returns
          (not (str_eq o.first_segment.origin command.origin)
            || not (str_eq (last_segment o).destination command.destination))
          _ _ (some "ROUTE_MISMATCH", refl)
          (if-Returns (ltb departure earliest || ltb latest departure) _ _
            (some "OUTSIDE_SEARCH_WINDOW", refl)
            (if-Returns (ltb command.maximum_stops (stops_of o)) _ _ (some "TOO_MANY_STOPS", refl)
              (>>=-Returns (has_expired iso searched_at o.offer_expires_at) _
                (has_expired-Returns searched_at o.offer_expires_at searched dated.0)
                (λ expired.
                  if-Returns expired _ _ (some "OFFER_EXPIRED", refl)
                    (segment_reason-Returns o departure arrival dated)))))

    rejection-Returns :
        (o : FlightOption)
        → IsDated o
        → Returns (rejection iso command searched_at earliest latest o)
    unfolding rejection
    rejection-Returns o dated =
        >>=-Returns (parse_timestamp iso o.first_segment.departure_at) _ dated.1.0.0 (λ departure.
          >>=-Returns (parse_timestamp iso (last_segment o).arrival_at) _
            (last_of-All IsDatedSegment o.first_segment o.later_segments dated.1).1
            (λ arrival. option_reason-Returns o departure arrival dated))

    -- What the loop leaves in has the times of what it was given.
    sift-returns :
        (options kept : List FlightOption) (counts : Dict ℕ)
        → All IsDated options
        → All IsDated kept
        → (last : List FlightOption × Dict ℕ) × (sift iso command searched_at earliest latest
              options
              (kept, counts)
            ≡ ok last)
          × All IsDated last.0
    unfolding sift
    sift-returns [] kept counts h k = ((kept, counts), refl, k)
    sift-returns (o ∷ options) kept counts h k =
        let (reason, found) = rejection-Returns o h.0 in
        elim (Option-cases reason) [
          | inl left ↦
              let (last, rest, dated) =
                sift-returns options (kept ++ o ∷ []) counts h.1
                  (All-append IsDated kept (o ∷ []) k (h.0, tt)) in
              (last, ground arith, dated)
          | inr (text, out) ↦
              let (last, rest, dated) =
                sift-returns options kept (bump iso command searched_at earliest latest text counts)
                  h.1 k in
              (last, ground arith, dated)
        ]

  keyed_options-Returns :
      (options : List FlightOption) → All IsDated options → Returns (keyed_options iso options)
  unfolding keyed_options keyed_option
  keyed_options-Returns [] h = (_, refl)
  keyed_options-Returns (o ∷ options) h =
      >>=-Returns (keyed_option iso o) _
        (>>=-Returns (parse_timestamp iso (last_segment o).arrival_at) _
          (last_of-All IsDatedSegment o.first_segment o.later_segments h.0.1).1
          (λ arrival.
            >>=-Returns (parse_timestamp iso o.first_segment.departure_at) _ h.0.1.0.0
              (λ departure. (_, refl))))
        (λ k.
          >>=-Returns (keyed_options iso options) _ (keyed_options-Returns options h.1)
            (λ keyed. (_, refl)))

  -- A ranking returns where the times of the search and of all the options are timestamps, and then
  -- no option is lost: those that are ranked and those that are counted as rejected are together as
  -- many as the provider's.
  pub rank-returns :
      (command : SearchCommand) (result : SearchResult)
      → IsTime command.earliest_departure_at
      → IsTime command.latest_departure_at
      → IsTime result.searched_at
      → All IsDated result.options
      → (answer : List RankedOption × Dict ℕ) × (rank_feasible_options iso command result
          ≡ ok answer)
        × (length answer.0 + total answer.1 ≡ length result.options)
  unfolding rank_feasible_options
  rank-returns command result (earliest, first) (latest, last) searched dated =
      let (sifted, left, kept) =
        sift-returns command result.searched_at searched earliest latest result.options [] [] dated
          tt in
      let (keyed, keys) = keyed_options-Returns sifted.0 kept in
      let answer : List RankedOption × Dict ℕ =
        (numbered 1 (arrange keyed), sorted_counts sifted.1) in
      let returned : rank_feasible_options iso command result ≡ ok answer = ground arith in
      (answer, returned, rank-conserves iso command result answer returned)
