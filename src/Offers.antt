-- ===== src/Offers.antt =====
-- The records of the search for other flights (flight_agent/flight_search_contracts.py).
--
-- An option has at least one segment: its first, and those after it.
pub mod Filter
pub mod Ranking
pub mod Feasible
pub mod Order
pub mod Ranked
pub mod Returns
use Prim.Native.Nat.{compare, Ordering}
use Prim.Native.String.{compare as compare_text}
use Prim.Native.Char.{code}
use Prim.Native.String
use flight_multi_agent.Base.{
  ℕ, zero, suc, ◌+◌, ◌-◌, ◌*◌, String, Bool, true, false, not, ◌&&◌, ◌||◌, Option, none, some, List,
  [], ◌∷◌, ◌++◌, map, any, length, leb, ltb, ◌==◌, if◌then◌else◌, str_eq, get_or,
}
use flight_multi_agent.Base.Assoc.{Dict, lookup, insert}
use flight_multi_agent.Base.Result.{Result, ok, raise, ◌>>=◌}
use flight_multi_agent.Clock.{IsoFormat, parse_timestamp, minute}
use flight_multi_agent.Evidence.{Verdict}

pub record Segment : Type 0 where
  pub flight_iata : String
  pub origin : String
  pub destination : String
  pub departure_at : String
  pub arrival_at : String

pub record Price : Type 0 where
  pub amount : String
  pub currency : String

-- `ProviderFlightOption`
pub record FlightOption : Type 0 where
  pub option_id : String
  pub first_segment : Segment
  pub later_segments : List Segment
  pub price : Option Price
  pub offer_expires_at : Option String
  pub owner_name : Option String
  pub owner_iata_code : Option String
  pub passenger_count : ℕ
  pub live_mode : Option Bool
  pub availability_status : String

pub record SearchApproval : Type 0 where
  pub candidate_id : String
  pub decision_id : String
  pub policy_version : String
  pub reason_codes : List String
  pub decided_at : String

-- `FlightSearchCommand`; the verdict of its approval is always the one that asks for a search, and
-- the number of passengers and the cabin are left at their defaults.
pub record SearchCommand : Type 0 where
  pub search_id : String
  pub idempotency_key : String
  pub trip_id : String
  pub leg_id : String
  pub original_flight_iata : String
  pub origin : String
  pub destination : String
  pub departure_date : String
  pub earliest_departure_at : String
  pub latest_departure_at : String
  pub maximum_stops : ℕ
  pub minimum_connection_minutes : ℕ
  pub approval : SearchApproval

-- `FlightSearchToolResult`; it never guarantees or authorizes a booking.
pub record SearchResult : Type 0 where
  pub search_id : String
  pub decision_id : String
  pub idempotency_key : String
  pub provider : String
  pub source_scope : String
  pub searched_at : String
  pub options : List FlightOption
  pub availability_verified : Bool

-- `RankedFlightOption`; what it copies from its option is the option.
pub record RankedOption : Type 0 where
  pub rank : ℕ
  pub option : FlightOption
  pub stops : ℕ
  pub departure_at : String
  pub arrival_at : String

pub data SearchStatus : Type 0 where
  completed no_options failed rejected : SearchStatus

-- `FlightSearchActionRecord`
pub record SearchRecord : Type 0 where
  pub search_id : String
  pub candidate_id : String
  pub decision_id : String
  pub trip_id : String
  pub leg_id : String
  pub verdict : Verdict
  pub status : SearchStatus
  pub idempotency_key : String
  pub provider : Option String
  pub source_scope : Option String
  pub alternatives : List RankedOption
  pub rejection_summary : Dict ℕ
  pub availability_verified : Bool
  pub recorded_at : String
  pub error_code : Option String
