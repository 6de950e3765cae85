-- ===== src/Observation/Changes.antt =====
-- What `changed_fields` and `classify_candidate` return.
use flight_multi_agent.Base.{
  ℕ, ◌≡◌, refl, ◌<◌, ◌⊎◌, ◌↔◌, String, Bool, true, false, Option, none, some, List, [], ◌∷◌, All,
  any, all, arith, eq_iff, get_or,
}
use flight_multi_agent.Base.Int.{ℤ}
use flight_multi_agent.Base.Result.{ok}
use flight_multi_agent.Clock.{IsoFormat}
use flight_multi_agent.Evidence.{
  Field, Category, delay, gate_change, terminal_change, weather_risk, is_severe,
}
use flight_multi_agent.Observation.{
  Observation, same_at, differing, changed_fields, all_fields, text_eq?, texts_eq, texts_eq?,
  no_weather, classify_candidate, operational_delay, is_short, is_delay_field, only, is_gate_field,
  is_terminal_field, is_weather_field,
}

module _ {F : Type 0} (previous current : Observation F) where
  differing-nil :
      (fields : List Field)
      → (differing previous current fields ≡ [])
        ↔ All (λ field. same_at previous current field ≡ true) fields
  unfolding differing
  differing-nil [] = (λ _. tt, λ _. refl)
  differing-nil (field ∷ fields) = ground (arith, differing-nil fields)

  -- Every field that is listed differs.
  differing-differs :
      (fields : List Field)
      → All (λ field. same_at previous current field ≡ false) (differing previous current fields)
  unfolding differing
  differing-differs [] = tt
  differing-differs (field ∷ fields) = ground (arith, differing-differs fields)

text_eq?_iff : (a b : Option String) → (text_eq? a b ≡ true) ↔ (a ≡ b)
text_eq?_iff none none = ground arith
text_eq?_iff none (some b) = ground arith
text_eq?_iff (some a) none = ground arith
text_eq?_iff (some a) (some b) = ground (arith, eq_iff a b)

texts_eq_iff : (a b : List String) → (texts_eq a b ≡ true) ↔ (a ≡ b)
texts_eq_iff [] [] = ground arith
texts_eq_iff [] (y ∷ ys) = ground arith
texts_eq_iff (x ∷ xs) [] = ground arith
texts_eq_iff (x ∷ xs) (y ∷ ys) = ground (arith, eq_iff x y, texts_eq_iff xs ys)

texts_eq?_iff : (a b : Option (List String)) → (texts_eq? a b ≡ true) ↔ (a ≡ b)
texts_eq?_iff none none = ground arith
texts_eq?_iff none (some b) = ground arith
texts_eq?_iff (some a) none = ground arith
texts_eq?_iff (some a) (some b) = ground (arith, texts_eq_iff a b)

module _ {F : Type 0} where
  -- What a traveller can be told about: status, times, terminals, gates and weather.
  pub record SameEvidence (a b : Observation F) : Type 0 where
    pub status : a.status ≡ b.status
    pub departure_estimated : a.departure.estimated_at ≡ b.departure.estimated_at
    pub departure_actual : a.departure.actual_at ≡ b.departure.actual_at
    pub departure_terminal : a.departure.terminal ≡ b.departure.terminal
    pub departure_gate : a.departure.gate ≡ b.departure.gate
    pub arrival_estimated : a.arrival.estimated_at ≡ b.arrival.estimated_at
    pub arrival_actual : a.arrival.actual_at ≡ b.arrival.actual_at
    pub arrival_terminal : a.arrival.terminal ≡ b.arrival.terminal
    pub arrival_gate : a.arrival.gate ≡ b.arrival.gate
    pub risk : (get_or a.weather no_weather).risk_level ≡ (get_or b.weather no_weather).risk_level
    pub alerts : (get_or a.weather no_weather).alerts ≡ (get_or b.weather no_weather).alerts

  -- No field is reported as changed exactly when the two observations have the same evidence.
  pub changed_fields-nil_iff :
      (previous current : Observation F)
      → (changed_fields previous current ≡ []) ↔ SameEvidence previous current
  unfolding changed_fields
  changed_fields-nil_iff previous current =
      let same = differing-nil previous current all_fields in
      (
        λ h.
            let a = same.0 h in
            record {
              status = (eq_iff _ _).0 a.0;
              departure_estimated = (text_eq?_iff _ _).0 a.1.0;
              departure_actual = (text_eq?_iff _ _).0 a.1.1.0;
              departure_terminal = (text_eq?_iff _ _).0 a.1.1.1.0;
              departure_gate = (text_eq?_iff _ _).0 a.1.1.1.1.0;
              arrival_estimated = (text_eq?_iff _ _).0 a.1.1.1.1.1.0;
              arrival_actual = (text_eq?_iff _ _).0 a.1.1.1.1.1.1.0;
              arrival_terminal = (text_eq?_iff _ _).0 a.1.1.1.1.1.1.1.0;
              arrival_gate = (text_eq?_iff _ _).0 a.1.1.1.1.1.1.1.1.0;
              risk = (text_eq?_iff _ _).0 a.1.1.1.1.1.1.1.1.1.0;
              alerts = (texts_eq?_iff _ _).0 a.1.1.1.1.1.1.1.1.1.1.0;
            },
        λ s. same.1 (
          (eq_iff _ _).1 s.status,
          (
            (text_eq?_iff _ _).1 s.departure_estimated,
            (
              (text_eq?_iff _ _).1 s.departure_actual,
              (
                (text_eq?_iff _ _).1 s.departure_terminal,
                (
                  (text_eq?_iff _ _).1 s.departure_gate,
                  (
                    (text_eq?_iff _ _).1 s.arrival_estimated,
                    (
                      (text_eq?_iff _ _).1 s.arrival_actual,
                      (
                        (text_eq?_iff _ _).1 s.arrival_terminal,
                        (
                          (text_eq?_iff _ _).1 s.arrival_gate,
                          ((text_eq?_iff _ _).1 s.risk, ((texts_eq?_iff _ _).1 s.alerts, tt)),
                        ),
                      ),
                    ),
                  ),
                ),
              ),
            ),
          ),
        ),
      )

only-all : (p : Field → Bool) (fields : List Field) → only p fields ≡ true → all p fields ≡ true
only-all p [] h = cc
only-all p (field ∷ fields) h = h

module _ {F : Type 0} (iso : IsoFormat) where
  -- A classification that is returned is severe, one of cancellation, diversion and connection
  -- risk, exactly when the status is cancelled or diverted or the connection is short.
  pub severe_iff :
      (current : Observation F) (fields : List Field) (buffer minimum : Option ℤ)
      (category : Category)
      → classify_candidate iso current fields buffer minimum ≡ ok category
      → (is_severe category ≡ true) ↔ (
          (current.status ≡ "cancelled")
          ⊎ (current.status ≡ "diverted")
          ⊎ (is_short buffer minimum ≡ true))
  unfolding classify_candidate
  severe_iff current fields buffer minimum category h =
      ground (arith, eq_iff current.status "cancelled", eq_iff current.status "diverted")

  -- A delay is reported only if the flight is late and one of its times has changed;
  -- a gate, terminal or weather change is reported only if nothing
  -- else has changed.
  pub classify_minor :
      (current : Observation F) (fields : List Field) (buffer minimum : Option ℤ) (minutes : ℕ)
      (category : Category)
      → operational_delay iso current ≡ ok minutes
      → classify_candidate iso current fields buffer minimum ≡ ok category
      → (category ≡ delay → (0 < minutes) × (any is_delay_field fields ≡ true))
        × (category ≡ gate_change → all is_gate_field fields ≡ true)
        × (category ≡ terminal_change → all is_terminal_field fields ≡ true)
        × (category ≡ weather_risk → all is_weather_field fields ≡ true)
  unfolding classify_candidate
  classify_minor current fields buffer minimum minutes category e h = ground (
    arith,
    only-all is_gate_field fields,
    only-all is_terminal_field fields,
    only-all is_weather_field fields,
  )
