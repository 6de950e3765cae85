-- ===== src/Orchestrator/Claim.antt =====
-- flight_agent/trip_orchestrator.py, the first step of `TripOrchestrator.tick`: the claim of the
-- legs, with the patterns of `ScheduledLeg` in flight_agent/trip_contracts.py.
use Prim.Native.Char.{Char, code}
use Prim.Native.String.{String}
use flight_multi_agent.Base.{
  ℕ, zero, suc, Bool, true, false, ◌&&◌, ◌||◌, none, some, Option, List, [], ◌∷◌, ◌++◌, any, all,
  leb, ◌==◌, if◌then◌else◌,
}
use flight_multi_agent.Base.Text.{strip_prefix, truthy}
use flight_multi_agent.Base.Result.{Result, ok, raise, value_error, database_error}
use flight_multi_agent.Schedule.{Leg, ScheduledLeg}
use flight_multi_agent.NotificationAction.{is_slug}
use flight_multi_agent.Trips.{Database}
use flight_multi_agent.Trips.Polls.{claim_transaction}

-- The characters of a text pass the tests, one each.
unfoldable pub fits : List (Char → Bool) → String → Bool
fits [] String.[] = true
fits [] (String.◌∷◌ c s) = false
fits (p ∷ tests) String.[] = false
fits (p ∷ tests) (String.◌∷◌ c s) = let rest = fits tests s in p c && rest

abbrev is_digit : Char → Bool
is_digit c = leb 48 (code c) && leb (code c) 57

abbrev is_upper_or_digit : Char → Bool
is_upper_or_digit c = is_digit c || leb 65 (code c) && leb (code c) 90

abbrev is_code : ℕ → Char → Bool
is_code n c = code c == n

abbrev repeated : ℕ → (Char → Bool) → List (Char → Bool)
repeated zero p = []
repeated (suc n) p = p ∷ repeated n p

-- A prefix, and then at least one small letter, digit or dash.
unfoldable pub is_named : String → String → Bool
unfolding strip_prefix is_slug
is_named prefix s = elim (strip_prefix prefix s) [
  | none ↦ false
  | some rest ↦ truthy rest && is_slug rest
]

-- Two or three capitals or digits, and then one to four digits.
unfoldable pub is_flight_iata : String → Bool
unfolding fits
is_flight_iata s =
    any
      (λ carrier.
        any (λ number. fits (repeated carrier is_upper_or_digit ++ repeated number is_digit) s)
          (1 ∷ 2 ∷ 3 ∷ 4 ∷ []))
      (2 ∷ 3 ∷ [])

-- A year from 2000 to 2099, two digits and two digits, with dashes between them.
unfoldable pub is_flight_date : String → Bool
unfolding fits
is_flight_date s =
    fits
      (is_code 50
        ∷ is_code 48
        ∷ is_digit
        ∷ is_digit
        ∷ is_code 45
        ∷ is_digit
        ∷ is_digit
        ∷ is_code 45
        ∷ is_digit
        ∷ is_digit
        ∷ [])
      s

-- The checks of `ScheduledLeg`
unfoldable pub is_scheduled : ScheduledLeg → Bool
unfolding is_named is_flight_iata is_flight_date
is_scheduled leg =
    is_named "trip-" leg.trip_id
    && (is_named "leg-" leg.leg_id
        && (is_flight_iata leg.flight_iata
            && (is_flight_date leg.flight_date && truthy leg.replay_key)))

-- `claim_due_legs` as its caller meets it: the database may refuse the transaction, which then
-- changes nothing, and the legs are built after the commit.
unfoldable pub claim_legs :
    (locked : Leg → Bool) (commits : Bool) (now maximum seconds : ℕ) (trip : Option String)
    → Database
    → Result (List ScheduledLeg) × Database
unfolding claim_transaction
claim_legs locked commits now maximum seconds trip db =
    let (due, leased) = claim_transaction locked now maximum seconds trip db in
    if commits
    then (if all is_scheduled due then (ok due, leased) else (raise value_error, leased))
    else (raise database_error, db)
