-- ===== src/Offers/Ranking.antt =====
-- flight_agent/flight_search.py, `rank_feasible_options`: the order of the options that are left,
-- and the ranking as a whole.
use Prim.Native.Nat.{compare, Ordering}
use Prim.Native.String.{compare as compare_text}
use Prim.Native.Char.{code}
use flight_multi_agent.Base.{
  ℕ, zero, suc, ◌+◌, ◌-◌, ◌*◌, String, Bool, true, false, Option, none, some, List, [], ◌∷◌, ◌==◌,
  if◌then◌else◌,
}
use flight_multi_agent.Base.Assoc.{Dict}
use flight_multi_agent.Base.Result.{Result, ok, ◌>>=◌}
use flight_multi_agent.Clock.{IsoFormat, parse_timestamp}
use flight_multi_agent.Offers.{FlightOption, Price, RankedOption, SearchCommand, SearchResult}
use flight_multi_agent.Offers.Filter.{last_segment, sift, stops_of}

digit : ℕ → ℕ
digit c = c - 48

-- A price in millionths: its digits, and after the point at most six more.
fraction : ℕ → ℕ → String → ℕ
unfolding digit
fraction value zero s = value
fraction value (suc places) String.[] = fraction (value * 10) places String.[]
fraction value (suc places) (String.◌∷◌ c s) = fraction (value * 10 + digit (code c)) places s

millionths : ℕ → String → ℕ
unfolding digit fraction
millionths value String.[] = value * 1000000
millionths value (String.◌∷◌ c s) =
    let after_point = fraction value 6 s in
    let whole = millionths (value * 10 + digit (code c)) s in
    if code c == 46 then after_point else whole

abbrev amount_of : Option Price → Option ℕ
amount_of none = none
amount_of (some p) = some (millionths 0 p.amount)

-- The sort key, with the option.
pub record Keyed : Type 0 where
  pub arrival : ℕ
  pub stops : ℕ
  pub amount : Option ℕ
  pub departure : ℕ
  pub option : FlightOption

abbrev then_by : Ordering → Bool → Bool
then_by Ordering.lt rest = true
then_by Ordering.eq rest = rest
then_by Ordering.gt rest = false

-- No price is above every price.
abbrev compare_amount : Option ℕ → Option ℕ → Ordering
compare_amount none none = Ordering.eq
compare_amount none (some b) = Ordering.gt
compare_amount (some a) none = Ordering.lt
compare_amount (some a) (some b) = compare a b

-- Whether the first may stand before the second.
unfoldable pub in_order : Keyed → Keyed → Bool
in_order a b =
    let by_id : Bool = elim (compare_text a.option.option_id b.option.option_id) [
      | Ordering.gt ↦ false
      | _ ↦ true
    ] in
    then_by (compare a.arrival b.arrival) (
      then_by (compare a.stops b.stops) (
        then_by (compare_amount a.amount b.amount)
          (then_by (compare a.departure b.departure) by_id)))

-- Python's sort is stable: an equal key stays behind.
unfoldable pub place : Keyed → List Keyed → List Keyed
place k [] = k ∷ []
place k (first ∷ keyed) =
    let later = first ∷ place k keyed in if in_order k first then k ∷ first ∷ keyed else later

unfoldable pub arrange : List Keyed → List Keyed
arrange [] = []
arrange (k ∷ keyed) = place k (arrange keyed)

unfoldable pub numbered : ℕ → List Keyed → List RankedOption
numbered rank [] = []
numbered rank (k ∷ keyed) =
    record {
      rank = rank;
      option = k.option;
      stops = stops_of k.option;
      departure_at = k.option.first_segment.departure_at;
      arrival_at = (last_segment k.option).arrival_at;
    }
    ∷ numbered (suc rank) keyed

-- `dict(sorted(rejected.items()))`
unfoldable pub place_count : String × ℕ → Dict ℕ → Dict ℕ
place_count item [] = item ∷ []
place_count item (first ∷ items) =
    let later = first ∷ place_count item items in
    elim (compare_text item.0 first.0) [ Ordering.gt ↦ later | _ ↦ item ∷ first ∷ items ]

unfoldable pub sorted_counts : Dict ℕ → Dict ℕ
sorted_counts [] = []
sorted_counts (item ∷ items) = place_count item (sorted_counts items)

module _ (iso : IsoFormat) where
  unfoldable pub keyed_option : FlightOption → Result Keyed
  unfolding millionths fraction digit
  keyed_option o = do
    arrival ← parse_timestamp iso (last_segment o).arrival_at
    departure ← parse_timestamp iso o.first_segment.departure_at
    ok (record {
      arrival = arrival;
      stops = stops_of o;
      amount = amount_of o.price;
      departure = departure;
      option = o;
    })

  unfoldable pub keyed_options : List FlightOption → Result (List Keyed)
  keyed_options [] = ok []
  keyed_options (o ∷ options) = do k ← keyed_option o; keyed ← keyed_options options; ok (k ∷ keyed)

  unfoldable pub rank_feasible_options :
      SearchCommand → SearchResult → Result (List RankedOption × Dict ℕ)
  rank_feasible_options command result = do
    earliest ← parse_timestamp iso command.earliest_departure_at
    latest ← parse_timestamp iso command.latest_departure_at
    (eligible, counts) ← sift iso command result.searched_at earliest latest result.options ([], [])
    keyed ← keyed_options eligible
    ok (numbered 1 (arrange keyed), sorted_counts counts)
