-- ===== src/WeatherRisk.antt =====
-- flight_agent/weather.py, `classify_weather_risk`: the risk level of a forecast, with its factors.
--
-- `reaches` is the comparison of a float with a number, `wind_speed_mps >= n`.
use flight_multi_agent.Base.{
  ℕ, ◌≡◌, ◌↔◌, ◌⊎◌, String, Bool, true, false, ◌&&◌, ◌||◌, Option, none, some, List, [], ◌∷◌, ◌++◌,
  any, leb, ltb, ◌==◌, if◌then◌else◌, arith,
}

pub data Risk : Type 0 where
  no_risk low moderate high severe : Risk

abbrev pub rank : Risk → ℕ
rank no_risk = 0
rank low = 1
rank moderate = 2
rank high = 3
rank severe = 4

-- `condition_code in {...}`
abbrev among : ℕ → List ℕ → Bool
among condition = any (λ other. condition == other)

unfoldable pub of_condition : ℕ → Risk × List String
of_condition condition =
    if leb 200 condition && ltb condition 300
    then (severe, "THUNDERSTORM" ∷ [])
    else if among condition (502 ∷ 503 ∷ 504 ∷ 511 ∷ 522 ∷ 602 ∷ 622 ∷ 762 ∷ 771 ∷ 781 ∷ [])
    then (severe, "EXTREME_CONDITION" ∷ [])
    else if among condition (501 ∷ 601 ∷ 611 ∷ 612 ∷ 613 ∷ 615 ∷ 616 ∷ 621 ∷ 741 ∷ [])
    then (high, "HAZARDOUS_CONDITION" ∷ [])
    else if leb 300 condition && ltb condition 400 || among condition (500 ∷ 520 ∷ [])
    then (low, "LIGHT_PRECIPITATION" ∷ [])
    else if (condition == 521 || condition == 600) || leb 700 condition && ltb condition 800
    then (moderate, "REDUCED_OPERATING_CONDITIONS" ∷ [])
    else (no_risk, [])

-- A measurement that is extreme makes the risk severe, and one that is hazardous makes it high
-- where it is lower.
unfoldable pub raise_by : Bool → Bool → String → String → Risk × List String → Risk × List String
raise_by extreme hazardous worst bad (risk, factors) =
    if extreme
    then (severe, factors ++ worst ∷ [])
    else if hazardous && ltb (rank risk) (rank high)
    then (high, factors ++ bad ∷ [])
    else (risk, factors)

abbrev pub sees_less : ℕ → Option ℕ → Bool
sees_less metres none = false
sees_less metres (some visibility) = ltb visibility metres

module _ {F : Type 0} (reaches : F → ℕ → Bool) where
  unfoldable pub classify_weather_risk : ℕ → F → Option ℕ → Risk × List String
  classify_weather_risk condition wind visibility =
      raise_by (sees_less 500 visibility) (sees_less 1500 visibility) "VERY_LOW_VISIBILITY"
        "LOW_VISIBILITY"
        (raise_by (reaches wind 25) (reaches wind 15) "EXTREME_WIND" "HIGH_WIND"
          (of_condition condition))

raise_by-severe_iff :
    (extreme hazardous : Bool) (worst bad : String) (r : Risk × List String)
    → ((raise_by extreme hazardous worst bad r).0 ≡ severe) ↔ ((extreme ≡ true) ⊎ (r.0 ≡ severe))
unfolding raise_by
raise_by-severe_iff true hazardous worst bad (risk, factors) = ground arith
raise_by-severe_iff false true worst bad (risk, factors) = ground arith
raise_by-severe_iff false false worst bad (risk, factors) = ground arith

-- The risk has a factor exactly when there is one.
abbrev IsExplained : Risk × List String → Type 0
IsExplained r = (r.1 ≡ []) ↔ (r.0 ≡ no_risk)

raise_by-IsExplained :
    (extreme hazardous : Bool) (worst bad : String) (r : Risk × List String)
    → IsExplained r
    → IsExplained (raise_by extreme hazardous worst bad r)
unfolding raise_by
raise_by-IsExplained true hazardous worst bad (risk, []) h = ground arith
raise_by-IsExplained true hazardous worst bad (risk, f ∷ factors) h = ground arith
raise_by-IsExplained false true worst bad (risk, []) h = ground arith
raise_by-IsExplained false true worst bad (risk, f ∷ factors) h = ground arith
raise_by-IsExplained false false worst bad (risk, factors) h = ground arith

of_condition-IsExplained : (condition : ℕ) → IsExplained (of_condition condition)
unfolding of_condition
of_condition-IsExplained condition = ground arith

-- The weather risk is severe exactly when the wind reaches 25 metres a second, less than 500 metres
-- can be seen, or the condition is severe; and it is "none" exactly when no factor is given.
pub classify_weather_risk-severe_iff :
    {F : Type 0} (reaches : F → ℕ → Bool) (condition : ℕ) (wind : F) (visibility : Option ℕ)
    → let r = classify_weather_risk reaches condition wind visibility in
      ((r.0 ≡ severe) ↔ (
        (sees_less 500 visibility ≡ true)
        ⊎ (reaches wind 25 ≡ true)
        ⊎ ((of_condition condition).0 ≡ severe)))
      × ((r.1 ≡ []) ↔ (r.0 ≡ no_risk))
unfolding classify_weather_risk
classify_weather_risk-severe_iff reaches condition wind visibility =
    let windy =
      raise_by (reaches wind 25) (reaches wind 15) "EXTREME_WIND" "HIGH_WIND"
        (of_condition condition) in
    let by_wind =
      raise_by-severe_iff (reaches wind 25) (reaches wind 15) "EXTREME_WIND" "HIGH_WIND"
        (of_condition condition) in
    let by_sight =
      raise_by-severe_iff (sees_less 500 visibility) (sees_less 1500 visibility)
        "VERY_LOW_VISIBILITY" "LOW_VISIBILITY" windy in
    (
      ground arith,
      raise_by-IsExplained (sees_less 500 visibility) (sees_less 1500 visibility)
          "VERY_LOW_VISIBILITY" "LOW_VISIBILITY" windy
          (raise_by-IsExplained (reaches wind 25) (reaches wind 15) "EXTREME_WIND" "HIGH_WIND"
            (of_condition condition) (of_condition-IsExplained condition)),
    )
