-- ===== src/Examples/Observations.antt =====
-- Observations that differ in a gate or in a time, and a clock.
use flight_multi_agent.Base.{ℕ, ◌≡◌, refl, ◌↔◌, some, none, [], ◌∷◌}
use flight_multi_agent.Base.Result.{ok}
use flight_multi_agent.Clock.{VirtualClock, parse_timestamp}
use flight_multi_agent.Evidence.{delay, departure_estimated_at}
use flight_multi_agent.Observation.{
  Observation, changed_fields, classify_candidate, operational_delay,
}
use flight_multi_agent.Observation.Changes.{SameEvidence, changed_fields-nil_iff}
use flight_multi_agent.Examples.Sample.{numerals, seen}

abbrev late : Observation ℕ
late = seen "obs-2" "290" "2700000000"

changed_fields-nil_iff_example :
    (changed_fields (seen "obs-1" "190" "0") late ≡ []) ↔ SameEvidence (seen "obs-1" "190" "0") late
changed_fields-nil_iff_example = changed_fields-nil_iff (seen "obs-1" "190" "0") late

late_minutes : operational_delay numerals late ≡ ok 45
unfolding operational_delay parse_timestamp numerals
late_minutes = refl

late_category : classify_candidate numerals late (departure_estimated_at ∷ []) none none ≡ ok delay
unfolding classify_candidate operational_delay parse_timestamp numerals
late_category = refl

abbrev at_500 : VirtualClock
at_500 = record { current = some 500 }
