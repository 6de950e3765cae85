-- ===== src/Trips/Reached.antt =====
-- The transactions of the store as steps, and what holds after any sequence of them.
use flight_multi_agent.Base.{ℕ, ◌≡◌, String, Bool, true, Option, List, [], ◌∷◌, any}
use flight_multi_agent.Base.Json.{Fields}
use flight_multi_agent.Base.Assoc.{Dict}
use flight_multi_agent.Base.Result.{ok}
use flight_multi_agent.Schedule.{Leg, ScheduledLeg}
use flight_multi_agent.Trips.{
  Calendar, DocumentObjectRef, ItineraryLeg, CanonicalItinerary, SmsNotificationPreference,
  AgentOutcome, Database, is_leg_of,
}
use flight_multi_agent.Trips.Writes.{save_parsed_trip, save_review_trip}
use flight_multi_agent.Trips.Polls.{
  complete_transaction, fail_transaction, claim_transaction, trace_transaction,
}
use flight_multi_agent.Trips.Consistent.{IsConsistent}
use flight_multi_agent.Trips.Inserts.{save_parsed_trip-IsConsistent, save_review_trip-IsConsistent}
use flight_multi_agent.Trips.Updates.{claim-IsConsistent, fail-IsConsistent}
use flight_multi_agent.Trips.Completed.{complete-IsConsistent}

-- An itinerary has at least one leg, and the leg of a poll was claimed: its trip has a leg.
pub data Step (calendar : Calendar) : Database → Database → Type 0 where
  registers :
      (itinerary : CanonicalItinerary) (document : DocumentObjectRef) (created_at : ℕ)
      (preference : Option SmsNotificationPreference) (inserted : Bool) (leg : ItineraryLeg)
      (leaves : List ItineraryLeg) (db next : Database)
      → itinerary.legs ≡ leg ∷ leaves
      → save_parsed_trip calendar itinerary document created_at preference db ≡ ok (inserted, next)
      → Step calendar db next
  reviews :
      (trip_id traveler_ref : String) (document : DocumentObjectRef) (review : Fields)
      (created_at : ℕ) (preference : Option SmsNotificationPreference) (inserted : Bool)
      (db next : Database)
      → save_review_trip calendar trip_id traveler_ref document review created_at preference db
        ≡ ok (inserted, next)
      → Step calendar db next
  claims :
      (locked : Leg → Bool) (now maximum seconds : ℕ) (trip : Option String) (db : Database)
      → Step calendar db (claim_transaction locked now maximum seconds trip db).1
  completes :
      (held : ScheduledLeg) (outcome : AgentOutcome) (at : ℕ) (db : Database)
      → any (is_leg_of held.trip_id) db.legs ≡ true
      → Step calendar db (complete_transaction calendar held outcome at db)
  fails :
      (held : ScheduledLeg) (code : String) (at : ℕ) (db : Database)
      → Step calendar db (fail_transaction calendar held code at db)
  traces :
      (trip_id : String) (headers : Dict String) (db : Database)
      → Step calendar db (trace_transaction trip_id headers db)

abbrev pub new_database : Database
new_database = record { trips = []; contacts = []; legs = []; runs = []; contexts = [] }

-- The databases that transactions lead to from the empty tables.
pub data Reached (calendar : Calendar) : Database → Type 0 where
  start : Reached calendar new_database
  later : (db next : Database) → Reached calendar db → Step calendar db next → Reached calendar next

step-IsConsistent :
    (calendar : Calendar) {db next : Database}
    → Step calendar db next
    → IsConsistent db
    → IsConsistent next
unfolding trace_transaction
step-IsConsistent calendar
      (registers itinerary document at preference inserted leg leaves db next has saved) holds =
    save_parsed_trip-IsConsistent calendar db holds itinerary document at preference inserted next
      leg leaves has saved
step-IsConsistent calendar
      (reviews trip_id traveler_ref document review at preference inserted db next saved) holds =
    save_review_trip-IsConsistent calendar db holds trip_id traveler_ref document review at
      preference inserted next saved
step-IsConsistent calendar (claims locked now maximum seconds trip db) holds =
    claim-IsConsistent db holds locked now maximum seconds trip
step-IsConsistent calendar (completes held outcome at db listed) holds =
    complete-IsConsistent db holds calendar held outcome at listed
step-IsConsistent calendar (fails held code at db) holds =
    fail-IsConsistent db holds calendar held code at
step-IsConsistent calendar (traces trip_id headers db) holds = holds

-- Whatever transactions are run on the empty tables, every leg belongs to a trip, an active leg
-- has a time of its next poll and a completed one has none; and an active trip has an active leg,
-- a completed trip has none, and a trip under review has no leg at all. An itinerary has at least
-- one leg, and a completed poll is of a trip with a leg.
pub Reached-IsConsistent :
    (calendar : Calendar) {db : Database} → Reached calendar db → IsConsistent db
Reached-IsConsistent calendar start = (tt, tt, tt)
Reached-IsConsistent calendar (later db next before step) =
    step-IsConsistent calendar step (Reached-IsConsistent calendar before)
