-- ===== src/Policy/History.antt =====
-- The notification history of an episode only rises, and a repeated severity band is suppressed.
use flight_multi_agent.Base.{
  ℕ, ◌≡◌, ◌≤◌, String, true, Option, some, List, arith, ◌∙◌, str_eq, eq_iff, if◌then◌else◌, get_or,
}
use flight_multi_agent.Base.Result.{ok}
use flight_multi_agent.Base.Assoc.{lookup, lookup-insert}
use flight_multi_agent.Clock.{IsoFormat}
use flight_multi_agent.Evidence.{Candidate, Decision, Verdict, suppress, is_suppress}
use flight_multi_agent.Policy.Rules.{verdict-evaluate}
use flight_multi_agent.Policy.{
  Policy, PolicyState, deduplicate, ruling, evaluate, severity_band, episode_key, not_above,
}

abbrev pub band_of : PolicyState → String → Option ℕ
band_of state key = lookup key state.highest_notified_band

deduplicate-history :
    (key other : String) (band : ℕ) (verdict : Verdict) (reasons : List String)
    (state : PolicyState)
    → let r = deduplicate key band verdict reasons state in
      band_of r.history other ≡ (
        if is_suppress r.verdict
        then band_of state other
        else if str_eq key other
        then some band
        else band_of state other)
unfolding deduplicate
deduplicate-history key other band verdict reasons state =
    ground (arith, lookup-insert key other band state.highest_notified_band, eq_iff key other)

deduplicate-repeat :
    (key : String) (band : ℕ) (verdict : Verdict) (reasons : List String) (state : PolicyState)
    → not_above band (band_of state key) ≡ true
    → ((deduplicate key band verdict reasons state).verdict ≡ suppress)
      × ((deduplicate key band verdict reasons state).history ≡ state)
unfolding deduplicate
deduplicate-repeat key band verdict reasons state h = (ground arith, ground arith)

module _ {F : Type 0} (iso : IsoFormat) (policy : Policy) (c : Candidate F)
    (state : PolicyState) where
  history-ruling :
      (other : String)
      → let r = ruling policy c state in
        band_of r.history other ≡ (
          if is_suppress r.verdict
          then band_of state other
          else if str_eq (episode_key c) other
          then some (severity_band c)
          else band_of state other)
  unfolding ruling
  history-ruling other = deduplicate-history (episode_key c) other (severity_band c) _ _ state

  ruling-repeat :
      not_above (severity_band c) (band_of state (episode_key c)) ≡ true
      → ((ruling policy c state).verdict ≡ suppress) × ((ruling policy c state).history ≡ state)
  unfolding ruling
  ruling-repeat = deduplicate-repeat (episode_key c) (severity_band c) _ _ state

  -- A decision that notifies records the candidate's band under its episode; a decision that is
  -- suppressed records nothing; no other episode changes either way.
  pub history-evaluate :
      (id : String) (d : Decision F) (other : String)
      → (evaluate iso policy c state id).0 ≡ ok d
      → band_of (evaluate iso policy c state id).1 other ≡ (
          if is_suppress d.verdict
          then band_of state other
          else if str_eq (episode_key c) other
          then some (severity_band c)
          else band_of state other)
  unfolding evaluate
  history-evaluate id d other h =
      ground (arith, verdict-evaluate iso policy c state id d h, history-ruling other)

  -- Whatever else it says, a candidate whose severity band is not above the recorded band of its
  -- episode is suppressed, and the history stays as it was.
  pub evaluate-repeat :
      (id : String) (d : Decision F) (previous : ℕ)
      → (evaluate iso policy c state id).0 ≡ ok d
      → band_of state (episode_key c) ≡ some previous
      → severity_band c ≤ previous
      → (d.verdict ≡ suppress) × ((evaluate iso policy c state id).1 ≡ state)
  unfolding evaluate
  evaluate-repeat id d previous h e le =
      let blocked : not_above (severity_band c) (band_of state (episode_key c)) ≡ true =
        ground arith in
      let (quiet, kept) = ruling-repeat blocked in
      (verdict-evaluate iso policy c state id d h ∙ quiet, kept)

deduplicate_rises :
    (key other : String) (band : ℕ) (verdict : Verdict) (reasons : List String)
    (state : PolicyState) (previous : ℕ)
    → band_of state other ≡ some previous
    → let r = deduplicate key band verdict reasons state in
      (top : ℕ) × (band_of r.history other ≡ some top) × (previous ≤ top)
unfolding deduplicate
deduplicate_rises key other band verdict reasons state previous h =
    let r = deduplicate key band verdict reasons state in
    (
      get_or (band_of r.history other) 0,
      ground (arith, lookup-insert key other band state.highest_notified_band, eq_iff key other),
      ground (arith, lookup-insert key other band state.highest_notified_band, eq_iff key other),
    )

module _ {F : Type 0} (iso : IsoFormat) (policy : Policy) (c : Candidate F)
    (state : PolicyState) where
  -- The recorded band of an episode is never lost and never falls, whatever the candidate, also
  -- where the evaluation raises.
  pub evaluate_rises :
      (id other : String) (previous : ℕ)
      → band_of state other ≡ some previous
      → (top : ℕ) × (band_of (evaluate iso policy c state id).1 other ≡ some top) × (previous ≤ top)
  unfolding evaluate ruling
  evaluate_rises id other previous h =
      deduplicate_rises (episode_key c) other (severity_band c) _ _ state previous h
