-- ===== src/Schedule.antt =====
-- flight_agent/trip_store.py: the polls of the trips' legs, which workers claim by lease.
--
-- A row of `trip_legs` is a record, its timestamps instants in microseconds. A transaction is one
-- step on the rows. `locked` tells the rows that other transactions hold while the claim runs.
pub mod Leases
pub mod Workers
pub mod Exclusive
pub mod Guard
pub mod Due
use Prim.Native.Nat.{compare, Ordering}
use Prim.Native.String.{compare as compare_text}
use flight_multi_agent.Base.{
  ℕ, suc, ◌+◌, ◌-◌, ◌*◌, ◌%◌, String, Bool, true, false, not, ◌&&◌, ◌||◌, Option, none, some, List,
  [], ◌∷◌, map, any, filter, take, leb, ltb, ◌==◌, get_or, if◌then◌else◌, str_eq,
}
use flight_multi_agent.Base.Text.{fstring}
use flight_multi_agent.Base.Assoc.{Dict, insert, lookup}
use flight_multi_agent.Clock.{minute, hour}

pub data MonitoringStatus : Type 0 where
  active completed : MonitoringStatus

pub record Leg : Type 0 where
  pub trip_id : String
  pub leg_id : String
  pub flight_iata : String
  pub flight_date : String
  pub origin : String
  pub destination : String
  pub scheduled_departure_at : ℕ
  pub scheduled_arrival_at : ℕ
  pub monitoring_status : MonitoringStatus
  pub next_poll_at : Option ℕ
  pub lease_until : Option ℕ
  pub last_poll_at : Option ℕ
  pub poll_count : ℕ
  pub last_poll_status : Option String

abbrev pub second : ℕ
second = 1000000

-- The wait before the next poll, by the time that is left until the departure.
unfoldable pub interval : ℕ → ℕ → ℕ
interval departure completed_at =
    if ltb (completed_at + 72 * hour) departure
    then 6 * hour
    else if ltb (completed_at + 24 * hour) departure
    then 2 * hour
    else if ltb (completed_at + 6 * hour) departure
    then 30 * minute
    else 10 * minute

unfoldable pub next_poll_time : ℕ → ℕ → ℕ → MonitoringStatus × Option ℕ
next_poll_time departure arrival completed_at =
    if leb (arrival + 2 * hour) completed_at
    then (completed, none)
    else (active, some (completed_at + interval departure completed_at))

abbrev pub same_leg : Leg → Leg → Bool
same_leg a b = str_eq a.trip_id b.trip_id && str_eq a.leg_id b.leg_id

abbrev pub is_active : MonitoringStatus → Bool
is_active active = true
is_active completed = false

-- `NULL` is never due, and a lease that is `NULL` or over is free.
abbrev reached : ℕ → Option ℕ → Bool
reached now none = false
reached now (some at) = leb at now

abbrev is_free : ℕ → Option ℕ → Bool
is_free now none = true
is_free now (some until) = leb until now

abbrev of_trip : Option String → Leg → Bool
of_trip none leg = true
of_trip (some trip_id) leg = str_eq leg.trip_id trip_id

unfoldable pub is_due : ℕ → Option String → Leg → Bool
is_due now trip_id leg =
    is_active leg.monitoring_status
    && (reached now leg.next_poll_at && (is_free now leg.lease_until && of_trip trip_id leg))

abbrev pub due_at : Leg → ℕ
due_at leg = elim leg.next_poll_at [ none ↦ 0 | some at ↦ at ]

-- The order by the poll's time, the trip and the leg.
is_before : Leg → Leg → Bool
is_before a b =
    let by_leg : Bool = elim (compare_text a.leg_id b.leg_id) [ Ordering.gt ↦ false | _ ↦ true ] in
    let by_trip : Bool = elim (compare_text a.trip_id b.trip_id) [
      | Ordering.lt ↦ true
      | Ordering.eq ↦ by_leg
      | Ordering.gt ↦ false
    ] in
    elim (compare (due_at a) (due_at b)) [
      | Ordering.lt ↦ true
      | Ordering.eq ↦ by_trip
      | Ordering.gt ↦ false
    ]

place : Leg → List Leg → List Leg
place leg [] = leg ∷ []
place leg (first ∷ legs) =
    let later = first ∷ place leg legs in if is_before leg first then leg ∷ first ∷ legs else later

pub in_order : List Leg → List Leg
in_order [] = []
in_order (leg ∷ legs) = place leg (in_order legs)

abbrev pub leased : ℕ → Leg → Leg
leased until leg = record leg { lease_until = some until }

module _ (locked : Leg → Bool) (now maximum_legs lease_seconds : ℕ) (trip_id : Option String) where
  -- The rows of the common table expression.
  unfoldable pub chosen : List Leg → List Leg
  unfolding in_order place is_before
  chosen legs =
      take maximum_legs (in_order (filter (λ leg. is_due now trip_id leg && not (locked leg)) legs))

  -- The rows that are returned, and the rows of the table after the update.
  unfoldable pub claim_due_legs : List Leg → List Leg × List Leg
  claim_due_legs legs =
      let until = now + lease_seconds * second in
      let due = chosen legs in
      (
        map (leased until) due,
        map (λ leg. if any (same_leg leg) due then leased until leg else leg) legs,
      )

-- What a worker holds of a claimed leg: the due time is kept to the microsecond, the times of the
-- flight to the second.
pub record ScheduledLeg : Type 0 where
  pub trip_id : String
  pub leg_id : String
  pub flight_iata : String
  pub flight_date : String
  pub scheduled_departure_at : ℕ
  pub scheduled_arrival_at : ℕ
  pub due_at : ℕ
  pub replay_key : String
  pub trace_headers : Dict String

-- The table of the trips' trace headers: a put replaces those of its trip.
unfoldable pub put_trace_context : String → Dict String → Dict (Dict String) → Dict (Dict String)
put_trace_context trip_id [] contexts = contexts
put_trace_context trip_id (header ∷ headers) contexts = insert trip_id (header ∷ headers) contexts

abbrev pub to_second : ℕ → ℕ
to_second instant = instant - instant % second

unfoldable pub scheduled_leg : Dict (Dict String) → Leg → ScheduledLeg
scheduled_leg contexts leg = record {
  trip_id = leg.trip_id;
  leg_id = leg.leg_id;
  flight_iata = leg.flight_iata;
  flight_date = leg.flight_date;
  scheduled_departure_at = to_second leg.scheduled_departure_at;
  scheduled_arrival_at = to_second leg.scheduled_arrival_at;
  due_at = due_at leg;
  replay_key = fstring ("scheduled:" ∷ leg.trip_id ∷ ":" ∷ leg.leg_id ∷ []);
  trace_headers = get_or (lookup leg.trip_id contexts) [];
}

-- The guard of the updates: the row is the leg's, and its poll is still the one that was claimed.
abbrev is_at : ℕ → Option ℕ → Bool
is_at due none = false
is_at due (some at) = at == due

abbrev pub is_claimed : ScheduledLeg → Leg → Bool
is_claimed held leg =
    str_eq leg.trip_id held.trip_id
    && (str_eq leg.leg_id held.leg_id && is_at held.due_at leg.next_poll_at)

unfoldable pub complete_row : ScheduledLeg → String → ℕ → Leg → Leg
complete_row held outcome_status completed_at leg =
    let (status, next_at) =
      next_poll_time held.scheduled_departure_at held.scheduled_arrival_at completed_at in
    if is_claimed held leg
    then record leg {
      monitoring_status = status;
      next_poll_at = next_at;
      lease_until = none;
      last_poll_at = some completed_at;
      poll_count = suc leg.poll_count;
      last_poll_status = some outcome_status;
    }
    else leg

unfoldable pub fail_row : ScheduledLeg → ℕ → Leg → Leg
fail_row held failed_at leg =
    if is_claimed held leg
    then record leg {
      next_poll_at = some (failed_at + 5 * minute);
      lease_until = none;
      last_poll_at = some failed_at;
      last_poll_status = some "poll_failed";
    }
    else leg

-- The updates of `trip_legs`.
unfoldable pub complete_poll : ScheduledLeg → String → ℕ → List Leg → List Leg
complete_poll held outcome_status completed_at legs =
    map (complete_row held outcome_status completed_at) legs

unfoldable pub fail_poll : ScheduledLeg → ℕ → List Leg → List Leg
fail_poll held failed_at legs = map (fail_row held failed_at) legs
