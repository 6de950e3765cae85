-- ===== src/Examples/Policies.antt =====
-- The policy on a delay of 45 minutes, twice.
use flight_multi_agent.Base.{ℕ, ◌≡◌, refl, ◌↔◌, false, some, [], ◌∷◌, ap}
use flight_multi_agent.Base.Assoc.{lookup, insert}
use flight_multi_agent.Base.Result.{ok}
use flight_multi_agent.Clock.{parse_timestamp, format_timestamp, plus}
use flight_multi_agent.Evidence.{Decision, notify, notify_and_search, is_suppress}
use flight_multi_agent.Policy.{PolicyState, no_history, evaluate, severity_band, episode_key}
use flight_multi_agent.Policy.Rules.{IsMaterial, Escalates, notifies_iff}
use flight_multi_agent.Policy.History.{band_of}
use flight_multi_agent.Examples.Sample.{numerals, policy_v1, delayed_by}

abbrev told : Decision ℕ
told = record {
  decision_id = "decision-a";
  candidate_id = "cand-a";
  trip_id = "trip-a";
  leg_id = "leg-1";
  decided_at = "100";
  verdict = notify;
  reason_codes = "DELAY_NOTIFY_THRESHOLD" ∷ [];
  policy_version = "1.2.0";
  confidence = 9000;
  cooldown_until = "3600000100";
}

abbrev noted : PolicyState
noted = record { highest_notified_band = ("trip-a:leg-1:DELAY", 2) ∷ [] }

first_time : evaluate numerals policy_v1 (delayed_by 45) no_history "decision-a" ≡ (ok told, noted)
unfolding evaluate episode_key severity_band lookup insert parse_timestamp format_timestamp plus
    numerals
first_time = refl

first_decision : (evaluate numerals policy_v1 (delayed_by 45) no_history "decision-a").0 ≡ ok told
first_decision = ap (λ r. r.0) first_time

notifies_iff_example :
    (is_suppress told.verdict ≡ false)
    ↔ (IsMaterial policy_v1 (delayed_by 45) × Escalates no_history (delayed_by 45))
notifies_iff_example =
    notifies_iff numerals policy_v1 (delayed_by 45) no_history "decision-a" told first_decision

abbrev urgent : Decision ℕ
urgent = record told { verdict = notify_and_search; reason_codes = "DELAY_SEARCH_THRESHOLD" ∷ [] }

urgent_decision : (evaluate numerals policy_v1 (delayed_by 120) noted "decision-a").0 ≡ ok urgent
unfolding evaluate episode_key severity_band lookup insert parse_timestamp format_timestamp plus
    numerals
urgent_decision = refl

noted_band : band_of noted (episode_key (delayed_by 60)) ≡ some 2
unfolding lookup episode_key
noted_band = refl
