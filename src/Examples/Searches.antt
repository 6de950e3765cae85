-- ===== src/Examples/Searches.antt =====
-- A search for other flights: three options, of which one is for another route.
use flight_multi_agent.Base.{
  ℕ, ◌≡◌, ◌⊎◌, ◌+◌, refl, String, true, false, none, some, List, [], ◌∷◌, ◌++◌, All, length,
}
use flight_multi_agent.Base.Assoc.{Dict, lookup, insert}
use flight_multi_agent.Base.Decimal.{decimal}
use flight_multi_agent.Base.Text.{remove_prefix}
use flight_multi_agent.Base.Table.{get_item, put_item}
use flight_multi_agent.Base.Result.{ok}
use flight_multi_agent.Clock.{parse_timestamp, format_timestamp, plus}
use flight_multi_agent.Evidence.{Decision, delay, notify_and_search}
use flight_multi_agent.Events.{ConfirmedEvent}
use flight_multi_agent.Offers.{
  Segment, FlightOption, SearchCommand, SearchResult, SearchRecord, SearchStatus, RankedOption,
}
use flight_multi_agent.Offers.Filter.{rejection, sift, is_backward, is_too_short}
use flight_multi_agent.Offers.Ranking.{
  place, arrange, in_order, numbered, place_count, sorted_counts, keyed_option, keyed_options,
  rank_feasible_options,
}
use flight_multi_agent.Offers.Feasible.{IsKept}
use flight_multi_agent.Offers.Order.{IsChain, total}
use flight_multi_agent.Offers.Ranked.{rank-IsFeasible, rank-IsSorted, IsNumbered, IsRankedBefore}
use flight_multi_agent.Offers.Returns.{rank-returns}
use flight_multi_agent.MonitoringStore.{
  get_decision, put_decision, get_confirmed_event, put_confirmed_event, get_last_observation,
  put_last_observation, get_search, put_search,
}
use flight_multi_agent.NotificationAction.{
  is_valid_event, wait_for_commit, verified_decision, decision_matches, event_matches,
}
use flight_multi_agent.SearchAction.{Outside, World, is_valid_search}
use flight_multi_agent.SearchAction.Process.{
  command_for, searched_record, result_matches, save, search_with, act, process_search_event,
}
use flight_multi_agent.SearchAction.Authorized.{IsSearched, process-IsSearched}
use flight_multi_agent.SearchAction.Settled.{process_search-once, process-IsFeasible}
use flight_multi_agent.Examples.Sample.{numerals, seen}

abbrev leg : String → String → String → String → String → Segment
leg flight origin destination departs arrives = record {
  flight_iata = flight;
  origin = origin;
  destination = destination;
  departure_at = departs;
  arrival_at = arrives;
}

abbrev option_of : String → Segment → List Segment → FlightOption
option_of id first later = record {
  option_id = id;
  first_segment = first;
  later_segments = later;
  price = some (record { amount = "99.50"; currency = "GBP" });
  offer_expires_at = none;
  owner_name = none;
  owner_iata_code = none;
  passenger_count = 1;
  live_mode = none;
  availability_status = "schedule_only";
}

abbrev direct : FlightOption
direct = option_of "direct" (leg "VS3" "LHR" "JFK" "1000" "900000000000") []

abbrev connecting : FlightOption
connecting =
    option_of "connecting" (leg "BA200" "LHR" "DUB" "2000" "100000000")
      (leg "EI105" "DUB" "JFK" "4000000000" "800000000000" ∷ [])

abbrev elsewhere : FlightOption
elsewhere = option_of "elsewhere" (leg "AF1" "LHR" "CDG" "1000" "2000") []

abbrev decision : Decision ℕ
decision = record {
  decision_id = "decision-a";
  candidate_id = "cand-a";
  trip_id = "trip-a";
  leg_id = "leg-1";
  decided_at = "100";
  verdict = notify_and_search;
  reason_codes = "SEARCH_THRESHOLD" ∷ [];
  policy_version = "1.2.0";
  confidence = 9000;
  cooldown_until = "200";
}

abbrev event : ConfirmedEvent
event = record {
  candidate_id = "cand-a";
  decision_id = "decision-a";
  trip_id = "trip-a";
  leg_id = "leg-1";
  category = delay;
  verdict = notify_and_search;
  reason_codes = "SEARCH_THRESHOLD" ∷ [];
  published_at = "500";
}

abbrev command : SearchCommand
command = record {
  search_id = "search-a";
  idempotency_key = "search:decision-a";
  trip_id = "trip-a";
  leg_id = "leg-1";
  original_flight_iata = "BA100";
  origin = "LHR";
  destination = "JFK";
  departure_date = "2026-01-01";
  earliest_departure_at = "500";
  latest_departure_at = "43200000500";
  maximum_stops = 1;
  minimum_connection_minutes = 45;
  approval = record {
    candidate_id = "cand-a";
    decision_id = "decision-a";
    policy_version = "1.2.0";
    reason_codes = "SEARCH_THRESHOLD" ∷ [];
    decided_at = "100";
  };
}

abbrev answer : SearchResult
answer = record {
  search_id = "search-a";
  decision_id = "decision-a";
  idempotency_key = "search:decision-a";
  provider = "recorded";
  source_scope = "synthetic_replay";
  searched_at = "600";
  options = direct ∷ elsewhere ∷ connecting ∷ [];
  availability_verified = false;
}

abbrev ranked : ℕ → FlightOption → ℕ → String → String → RankedOption
ranked rank o stops departs arrives = record {
  rank = rank;
  option = o;
  stops = stops;
  departure_at = departs;
  arrival_at = arrives;
}

abbrev offered : List RankedOption × Dict ℕ
offered = (
  ranked 1 connecting 1 "2000" "800000000000" ∷ ranked 2 direct 0 "1000" "900000000000" ∷ [],
  ("ROUTE_MISMATCH", 1) ∷ [],
)

ranks : rank_feasible_options numerals command answer ≡ ok offered
unfolding rank_feasible_options parse_timestamp numerals sift rejection is_backward is_too_short
    keyed_option keyed_options arrange place in_order numbered sorted_counts place_count lookup
    insert
ranks = refl

rank-returns_example :
    (a : List RankedOption × Dict ℕ) × (rank_feasible_options numerals command answer ≡ ok a)
    × (length a.0 + total a.1 ≡ 3)
unfolding parse_timestamp numerals
rank-returns_example =
    rank-returns numerals command answer (500, refl) (43200000500, refl) (600, refl)
      (
        (tt, (((1000, refl), (900000000000, refl)), tt)),
        (
          (tt, (((1000, refl), (2000, refl)), tt)),
          (
            (
              tt,
              (((2000, refl), (100000000, refl)), (((4000000000, refl), (800000000000, refl)), tt)),
            ),
            tt,
          ),
        ),
      )

rank-IsSorted_example : IsNumbered 1 offered.0 × IsChain (IsRankedBefore numerals) offered.0
rank-IsSorted_example = rank-IsSorted numerals command answer offered ranks

rank-IsFeasible_example :
    (earliest : ℕ) × (latest : ℕ) × (parse_timestamp numerals command.earliest_departure_at
      ≡ ok earliest)
    × (parse_timestamp numerals command.latest_departure_at ≡ ok latest)
    × All
        (λ r. IsKept numerals command answer.searched_at earliest latest answer.options r.option)
        offered.0
rank-IsFeasible_example = rank-IsFeasible numerals command answer offered ranks

-- The search tool gives that answer to every command.
abbrev service : Outside ℕ
service = record { waiting = []; search_flights = λ c. some answer; now = "t"; stores = true }

abbrev world : World ℕ
world = record {
  store =
      put_last_observation (put_confirmed_event (put_decision [] "cand-a" decision) "cand-a" event)
        "trip-a" "leg-1" (seen "obs-1" "100" "0");
  searched = [];
}

abbrev found : SearchRecord
found = record {
  search_id = "search-a";
  candidate_id = "cand-a";
  decision_id = "decision-a";
  trip_id = "trip-a";
  leg_id = "leg-1";
  verdict = notify_and_search;
  status = SearchStatus.completed;
  idempotency_key = "search:decision-a";
  provider = some "recorded";
  source_scope = some "synthetic_replay";
  alternatives = offered.0;
  rejection_summary = offered.1;
  availability_verified = false;
  recorded_at = "600";
  error_code = none;
}

finds : (process_search_event numerals service event world).0 ≡ ok found
unfolding process_search_event act search_with save searched_record command_for is_valid_search
    result_matches is_valid_event wait_for_commit verified_decision decision_matches event_matches
    get_decision put_decision get_confirmed_event put_confirmed_event get_last_observation
    put_last_observation get_search put_search get_item put_item rank_feasible_options
    parse_timestamp format_timestamp plus numerals decimal remove_prefix sift rejection is_backward
    is_too_short keyed_option keyed_options arrange place in_order numbered sorted_counts
    place_count lookup insert
finds = refl

not_searched : get_search world.store event.decision_id ≡ none
unfolding get_search get_decision put_decision get_confirmed_event put_confirmed_event
    put_last_observation get_item put_item
not_searched = refl

process-IsSearched_example :
    let after = process_search_event numerals service event world in
    (after.1.searched ≡ [])
    ⊎ ((c : SearchCommand) × (after.1.searched ≡ [] ++ c ∷ [])
        × IsSearched numerals service event world c)
process-IsSearched_example = process-IsSearched numerals service event world

process_search-once_example :
    let after = (process_search_event numerals service event world).1 in
    process_search_event numerals service event after ≡ (ok found, after)
process_search-once_example = process_search-once numerals service event world found finds refl

process-IsFeasible_example :
    (c : SearchCommand) × IsSearched numerals service event world c
    × (result : SearchResult) × (service.search_flights c ≡ some result)
    × (earliest : ℕ) × (latest : ℕ) × (parse_timestamp numerals c.earliest_departure_at
        ≡ ok earliest)
    × (parse_timestamp numerals c.latest_departure_at ≡ ok latest)
    × All
        (λ a. IsKept numerals c result.searched_at earliest latest result.options a.option)
        found.alternatives
process-IsFeasible_example =
    process-IsFeasible numerals service event world found not_searched finds refl
