-- ===== src/SearchAction.antt =====
-- flight_agent/flight_search_action_service.py: the path from a confirmed event to a read-only
-- search for other flights, and the handling of an event's message.
--
-- The state is the store and the commands that the search tool was given. `Outside` holds what the
-- calls out of the service return, with `none` or `false` for an exception; `waiting` is what other
-- callers do to the store between the readings of the decision.
pub mod Process
pub mod Authorized
pub mod Settled
use Prim.Native.Char.{code}
use Prim.Native.String
use flight_multi_agent.Base.{
  ℕ, zero, suc, String, Bool, true, false, ◌&&◌, ◌||◌, Option, none, some, List, [], ◌∷◌, leb, max,
  if◌then◌else◌, str_eq, ◌==◌,
}
use flight_multi_agent.Base.Text.{fstring, remove_prefix, truthy}
use flight_multi_agent.Base.Table.{Table}
use flight_multi_agent.Base.Assoc.{Dict}
use flight_multi_agent.Base.Result.{
  Result, ok, raise, ◌>>=◌, or_raise, value_error, client_error, key_error,
}
use flight_multi_agent.Clock.{IsoFormat, parse_timestamp, format_timestamp, plus, hour}
use flight_multi_agent.Evidence.{Decision, notify_and_search, is_search}
use flight_multi_agent.Observation.{Observation}
use flight_multi_agent.Events.{ConfirmedEvent}
use flight_multi_agent.Offers.{
  SearchApproval, SearchCommand, SearchResult, SearchRecord, SearchStatus, RankedOption, completed,
  no_options, failed, rejected,
}
use flight_multi_agent.Offers.Ranking.{rank_feasible_options}
use flight_multi_agent.MonitoringStore.{Item, get_last_observation, get_search, put_search}
use flight_multi_agent.NotificationAction.{is_valid_event, wait_for_commit, verified_decision}

pub record Outside (F : Type 0) : Type 0 where
  pub waiting : List (Table (Item F) → Table (Item F))
  pub search_flights : SearchCommand → Option SearchResult
  pub now : String
  pub stores : Bool

pub record World (F : Type 0) : Type 0 where
  pub store : Table (Item F)
  pub searched : List SearchCommand

abbrev pub search_id_of : ConfirmedEvent → String
search_id_of e = fstring ("search-" ∷ remove_prefix e.decision_id "decision-" ∷ [])

abbrev pub search_key_of : ConfirmedEvent → String
search_key_of e = fstring ("search:" ∷ e.decision_id ∷ [])

-- `_record`
abbrev pub record_of : ConfirmedEvent → SearchStatus → String → Option String → SearchRecord
record_of e status recorded_at error_code = record {
  search_id = search_id_of e;
  candidate_id = e.candidate_id;
  decision_id = e.decision_id;
  trip_id = e.trip_id;
  leg_id = e.leg_id;
  verdict = e.verdict;
  status = status;
  idempotency_key = search_key_of e;
  provider = none;
  source_scope = none;
  alternatives = [];
  rejection_summary = [];
  availability_verified = false;
  recorded_at = recorded_at;
  error_code = error_code;
}

abbrev is_digit : ℕ → Bool
is_digit c = leb 48 c && leb c 57

abbrev is_upper : ℕ → Bool
is_upper c = leb 65 c && leb c 90

-- `^[A-Z]{3}$`
is_airport : String → Bool
is_airport (String.◌∷◌ a (String.◌∷◌ b (String.◌∷◌ c String.[]))) =
    is_upper (code a) && (is_upper (code b) && is_upper (code c))
is_airport _ = false

-- At least one digit and at most a number of them.
digits : ℕ → String → Bool
digits zero s = false
digits (suc n) String.[] = false
digits (suc n) (String.◌∷◌ c String.[]) = is_digit (code c)
digits (suc n) (String.◌∷◌ c s) = let rest = digits n s in is_digit (code c) && rest

-- `^[A-Z0-9]{2,3}[0-9]{1,4}$`
is_flight : String → Bool
unfolding digits
is_flight (String.◌∷◌ a (String.◌∷◌ b (String.◌∷◌ c s))) =
    (is_upper (code a) || is_digit (code a))
    && ((is_upper (code b) || is_digit (code b))
        && (digits 4 (String.◌∷◌ c s) || (is_upper (code c) || is_digit (code c)) && digits 4 s))
is_flight _ = false

-- The digits of a date, where a hyphen has to stand at two places.
digits_at : List Bool → String → Bool
digits_at [] String.[] = true
digits_at (true ∷ places) (String.◌∷◌ c s) =
    let rest = digits_at places s in is_digit (code c) && rest
digits_at (false ∷ places) (String.◌∷◌ c s) = let rest = digits_at places s in code c == 45 && rest
digits_at _ _ = false

-- `^20[0-9]{2}-[0-9]{2}-[0-9]{2}$`
is_date : String → Bool
unfolding digits_at
is_date (String.◌∷◌ a (String.◌∷◌ b s)) =
    code a == 50
    && (code b == 48 && digits_at (true ∷ true ∷ false ∷ true ∷ true ∷ false ∷ true ∷ true ∷ []) s)
is_date _ = false

-- The checks of a command that its construction does not already ensure.
unfoldable pub is_valid_search : SearchCommand → Bool
unfolding is_airport digits is_flight digits_at is_date
is_valid_search c =
    is_flight c.original_flight_iata
    && (is_airport c.origin
        && (is_airport c.destination
            && (is_date c.departure_date && truthy c.approval.policy_version)))
