-- ===== src/Policy/Rules.antt =====
-- When a decision notifies the traveller, and when it asks for a search.
use flight_multi_agent.Base.{
  ℕ, ◌≡◌, ◌≤◌, ◌<◌, ◌↔◌, ◌⊎◌, String, true, false, some, List, arith, get_or,
}
use flight_multi_agent.Base.Result.{ok}
use flight_multi_agent.Base.Assoc.{lookup}
use flight_multi_agent.Clock.{IsoFormat}
use flight_multi_agent.Evidence.{
  Candidate, Decision, Verdict, notify_and_search, delay, is_suppress, is_severe,
}
use flight_multi_agent.Policy.{
  Policy, PolicyState, rule, corroborate, deduplicate, ruling, evaluate, delay_of, severity_band,
  episode_key,
}

module _ {F : Type 0} where
  -- The disruption calls for action: it is severe by its category, or a delay at a threshold.
  abbrev pub IsMaterial : Policy → Candidate F → Type 0
  IsMaterial policy c =
      (is_severe c.category ≡ true)
      ⊎ (c.category ≡ delay)
        × ((policy.search_threshold ≤ delay_of c) ⊎ (policy.notify_threshold ≤ delay_of c))

  -- The history holds no band of the episode that is as high as the candidate's.
  abbrev pub Escalates : PolicyState → Candidate F → Type 0
  Escalates state c =
      (previous : ℕ)
      → lookup (episode_key c) state.highest_notified_band ≡ some previous
      → previous < severity_band c

  rule-notifies :
      (policy : Policy) (c : Candidate F) (risk : String)
      → (is_suppress (rule policy c.category (delay_of c) risk).0 ≡ false) ↔ IsMaterial policy c
  unfolding rule
  rule-notifies policy c risk = ground arith

  rule-searches :
      (policy : Policy) (c : Candidate F) (risk : String)
      → (rule policy c.category (delay_of c) risk).0 ≡ notify_and_search
      → (is_severe c.category ≡ true) ⊎ (policy.search_threshold ≤ delay_of c)
  unfolding rule
  rule-searches policy c risk h = ground arith

deduplicate-notifies :
    (key : String) (band : ℕ) (verdict : Verdict) (reasons : List String) (state : PolicyState)
    → is_suppress (deduplicate key band verdict reasons state).verdict ≡ false
    → (is_suppress verdict ≡ false)
      × ((deduplicate key band verdict reasons state).verdict ≡ verdict)
      × ((previous : ℕ) → lookup key state.highest_notified_band ≡ some previous → previous < band)
unfolding deduplicate
deduplicate-notifies key band verdict reasons state h =
    (ground arith, ground arith, λ previous e. ground arith)

deduplicate-keeps :
    (key : String) (band : ℕ) (verdict : Verdict) (reasons : List String) (state : PolicyState)
    → is_suppress verdict ≡ false
    → ((previous : ℕ) → lookup key state.highest_notified_band ≡ some previous → previous < band)
    → (deduplicate key band verdict reasons state).verdict ≡ verdict
unfolding deduplicate
deduplicate-keeps key band verdict reasons state h rises = grind (arith)

module _ {F : Type 0} (iso : IsoFormat) (policy : Policy) (c : Candidate F)
    (state : PolicyState) where
  pub verdict-evaluate :
      (id : String) (d : Decision F)
      → (evaluate iso policy c state id).0 ≡ ok d
      → d.verdict ≡ (ruling policy c state).verdict
  unfolding evaluate
  verdict-evaluate id d h = ground arith

  -- A decision that is returned notifies the traveller, with or without a search, exactly when the
  -- disruption is material and its severity band is above every band that the history holds for
  -- its trip, leg and category.
  pub notifies_iff :
      (id : String) (d : Decision F)
      → (evaluate iso policy c state id).0 ≡ ok d
      → (is_suppress d.verdict ≡ false) ↔ (IsMaterial policy c × Escalates state c)
  unfolding ruling
  notifies_iff id d h =
      let risk = get_or c.weather_risk_level "unknown" in
      let (verdict, reasons) = rule policy c.category (delay_of c) risk in
      let told = corroborate (get_or c.corroborated_by_weather false) verdict reasons in
      let key = episode_key c in
      let band = severity_band c in
      rw (verdict-evaluate id d h) (
        λ n.
            let (loud, _, rises) = deduplicate-notifies key band verdict told state n in
            ((rule-notifies policy c risk).0 loud, rises),
        λ m.
            let loud = (rule-notifies policy c risk).1 m.0 in
            rw (deduplicate-keeps key band verdict told state loud m.1) loud,
      )

  -- A decision asks for a search only if the category is severe or the delay has reached the
  -- search threshold.
  pub searches_only_if_severe :
      (id : String) (d : Decision F)
      → (evaluate iso policy c state id).0 ≡ ok d
      → d.verdict ≡ notify_and_search
      → (is_severe c.category ≡ true) ⊎ (policy.search_threshold ≤ delay_of c)
  unfolding ruling
  searches_only_if_severe id d h s =
      let risk = get_or c.weather_risk_level "unknown" in
      let (verdict, reasons) = rule policy c.category (delay_of c) risk in
      let told = corroborate (get_or c.corroborated_by_weather false) verdict reasons in
      ground (
        arith,
        verdict-evaluate id d h,
        deduplicate-notifies (episode_key c) (severity_band c) verdict told state,
        rule-searches policy c risk,
      )

  -- What a decision copies from its candidate.
  pub fields-evaluate :
      (id : String) (d : Decision F)
      → (evaluate iso policy c state id).0 ≡ ok d
      → (d.decision_id ≡ id)
        × (d.candidate_id ≡ c.candidate_id)
        × (d.trip_id ≡ c.trip_id)
        × (d.leg_id ≡ c.leg_id)
        × (d.decided_at ≡ c.observed_at)
        × (d.policy_version ≡ policy.version)
  unfolding evaluate
  fields-evaluate id d h =
      (ground arith, ground arith, ground arith, ground arith, ground arith, ground arith)
