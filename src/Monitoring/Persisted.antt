-- ===== src/Monitoring/Persisted.antt =====
-- The evidence that a poll leaves for the next one.
use flight_multi_agent.Base.{
  ℕ, ◌≡◌, ◌<◌, ◌⊎◌, refl, ap, ◌∙◌, false, ◌&&◌, Option, none, some, All, arith, Bool-cases, inl,
  inr, if◌then◌else◌, is_some,
}
use flight_multi_agent.Base.Table.{Key, Table, get_item, put_item, get_item-put_item, key_eq_refl}
use flight_multi_agent.Base.Result.{ok, >>=-eq-ok}
use flight_multi_agent.Clock.{IsoFormat, parse_timestamp}
use flight_multi_agent.Evidence.{Candidate}
use flight_multi_agent.Observation.{Observation, Floats}
use flight_multi_agent.MonitoringStore.{
  Item, WeatherReport, observation, weather, observation_key, weather_key, get_last_observation,
  get_last_weather, put_last_weather, put_last_observation,
}
use flight_multi_agent.Monitoring.{PollRequest, fetched, Outside, World}
use flight_multi_agent.Monitoring.Judge.{PollEvidence, flight_of}
use flight_multi_agent.Monitoring.Poll.{
  persist, keep_weather, fresh_flight, emit, report, compare_evidence, is_stale, with_stale,
  evaluate_delta,
}
use flight_multi_agent.Monitoring.Steps.{compare_evidence-cases, evaluate_delta-cases}
use flight_multi_agent.Monitoring.Emitted.{IsKept, get_item-report, get_item-emit}

abbrev pub flight_key : PollRequest → Key
flight_key request = observation_key request.trip_id request.leg_id

module _ {F : Type 0} (iso : IsoFormat) where
  -- The source of a flight is strictly later than that of the flight that is stored.
  pub record IsLater (flight : Observation F) (stored : Option (Observation F)) : Type 0 where
    pub previous : Observation F
    pub is_stored : stored ≡ some previous
    pub at : ℕ
    pub before : ℕ
    pub reads : parse_timestamp iso flight.source_event_time ≡ ok at
    pub reads_before : parse_timestamp iso previous.source_event_time ≡ ok before
    pub later : before < at

  is_stale-IsLater :
      (flight previous : Observation F) (stored : Option (Observation F))
      → stored ≡ some previous
      → is_stale iso flight previous ≡ ok false
      → IsLater flight stored
  unfolding is_stale
  is_stale-IsLater flight previous stored is_stored fresh =
      let (at, reads, rest) = >>=-eq-ok (parse_timestamp iso flight.source_event_time) _ fresh in
      let (before, reads_before, compared) =
        >>=-eq-ok (parse_timestamp iso previous.source_event_time) _ rest in
      record {
        previous = previous;
        is_stored = is_stored;
        at = at;
        before = before;
        reads = reads;
        reads_before = reads_before;
        later = ground arith;
      }

module _ {F : Type 0} (request : PollRequest) where
  abbrev pub held_flight : Table (Item F) → Option (Observation F)
  held_flight table = get_last_observation table request.trip_id request.leg_id

  abbrev pub held_weather : Table (Item F) → Option (WeatherReport F)
  held_weather table = get_last_weather table request.trip_id request.leg_id

  get_item-keep_weather :
      (current : Option (WeatherReport F)) (table : Table (Item F))
      → get_item (flight_key request) (keep_weather request current table)
        ≡ get_item (flight_key request) table
  unfolding put_last_weather
  get_item-keep_weather none table = refl
  get_item-keep_weather (some w) table =
      let got =
        get_item-put_item (weather_key request.trip_id request.leg_id) (flight_key request)
          (weather w) table in
      ground arith

  held_flight-persist :
      (flight : Option (Observation F)) (current : Option (WeatherReport F))
      (table : Table (Item F))
      → held_flight (persist request flight current table)
        ≡ (if is_some flight then flight else held_flight table)
  unfolding persist put_last_observation get_last_observation
  held_flight-persist none current table = ground (arith, get_item-keep_weather current table)
  held_flight-persist (some o) current table =
      let put = put_item (flight_key request) (observation o) table in
      let got = get_item-put_item (flight_key request) (flight_key request) (observation o) table in
      ground (arith, key_eq_refl (flight_key request), get_item-keep_weather current put)

  module _ (outside : Outside F) (kept_waiting : All (IsKept (flight_key request)) outside.waiting)
      (kept_notified : All (IsKept (flight_key request)) outside.until_notified)
      (kept_searched : All (IsKept (flight_key request)) outside.until_searched) where
    held_flight-report :
        (e : PollEvidence F) (c : Candidate F) (w : World F)
        → held_flight (report outside request e c w).1.store ≡ (
            if (emit outside c w).0 && is_some (fresh_flight e)
            then fresh_flight e
            else held_flight w.store)
    unfolding get_last_observation
    held_flight-report e c w =
        let emitted = emit outside c w in
        let store = emitted.1.store in
        let one =
          get_item-report (flight_key request) outside request kept_waiting kept_notified
            kept_searched e c w (omega arith) in
        let two = held_flight-persist (fresh_flight e) e.current_weather store in
        let three = get_item-emit (flight_key request) (omega arith) outside c w in
        elim (Bool-cases emitted.0) [ inl done ↦ ground arith | inr failed ↦ ground arith ]

    module _ (iso : IsoFormat) (floats : Floats F) where
      held_flight-compare_evidence :
          (e : PollEvidence F) (w : World F)
          → let after = compare_evidence outside request iso floats e w in
            (held_flight after.1.store ≡ held_flight w.store)
            ⊎ ((held_flight after.1.store ≡ some e.flight) × (e.stale ≡ false))
      held_flight-compare_evidence e w =
          elim (compare_evidence-cases outside request iso floats e w) [
            | inl quiet ↦
                let kept = held_flight-persist (fresh_flight e) e.current_weather w.store in
                let went = quiet.outcome in
                elim (Bool-cases e.stale) [
                  | inl stale ↦ inl (ground arith)
                  | inr fresh ↦ inr (ground arith, fresh)
                ]
            | inr (inl reported) ↦
                let kept = held_flight-report e reported.candidate w in
                let went = reported.outcome in
                elim (Bool-cases e.stale) [
                  | inl stale ↦ inl (ground arith)
                  | inr fresh ↦ elim (Bool-cases (emit outside reported.candidate w).0) [
                    | inl done ↦ inr (ground arith, fresh)
                    | inr failed ↦ inl (ground arith)
                  ]
                ]
            | inr (inr raised) ↦ let went = raised.outcome in inl (ground arith)
          ]

      -- The observation that is kept for a leg only moves forward: a poll leaves the one that was
      -- there, or puts the provider's in its place, and then either none was there or its source is
      -- strictly older. The other callers of the store leave the leg's observation as it is.
      pub evaluate_delta-held :
          (provided : Observation F) (current : Option (WeatherReport F)) (w : World F)
          → let flight = flight_of request provided in
            let after = evaluate_delta outside request iso floats (fetched provided current) w in
            (held_flight after.1.store ≡ held_flight w.store)
            ⊎ (held_flight after.1.store ≡ some flight)
              × ((held_flight w.store ≡ none) ⊎ IsLater iso flight (held_flight w.store))
      evaluate_delta-held provided current w =
          let flight = flight_of request provided in
          elim (evaluate_delta-cases outside request iso floats provided current w) [
            | inl baseline ↦
                let kept = held_flight-persist (some flight) current w.store in
                let went = baseline.outcome in inr (ground arith, inl baseline.no_previous)
            | inr (inl compared) ↦
                let e = with_stale request compared.previous flight current w compared.stale in
                let went = compared.outcome in
                elim (held_flight-compare_evidence e w) [
                  | inl same ↦ inl (ground arith)
                  | inr (put, fresh) ↦ inr (
                    ground arith,
                    inr (
                        is_stale-IsLater iso flight compared.previous (held_flight w.store)
                          compared.held (compared.told ∙ ap ok fresh)),
                  )
                ]
            | inr (inr untimed) ↦ let went = untimed.outcome in inl (ground arith)
          ]
