-- ===== src/Replay/Induction.antt =====
-- What every turn of the replay keeps holds of the whole replay.
use flight_multi_agent.Base.{ℕ, ◌≡◌, Bool, true, false, Option, none, some, List, [], ◌∷◌, String}
use flight_multi_agent.Base.Assoc.{Dict, lookup}
use flight_multi_agent.Base.Result.{ok, >>=-eq-ok, ok-ensures, ok-injective}
use flight_multi_agent.Clock.{IsoFormat, VirtualClock, advance_to, parse_timestamp}
use flight_multi_agent.Evidence.{Field}
use flight_multi_agent.Observation.{Floats, Observation, changed_fields}
use flight_multi_agent.Policy.{Policy}
use flight_multi_agent.Replay.{
  Scenario, Run, ReplayResult, Envelope, new_run, compare_with, ignore, keep, is_stale, turn,
  replay_step, replay_all, replay, sort_by_arrival,
}

module _ {F : Type 0} (iso : IsoFormat) (floats : Floats F) (policy : Policy)
    (scenario : Scenario F) (P : Run F → Type 0)
    (ignoring : (run : Run F) (clock : VirtualClock) (ids : List String)
      → P run
      → P (record run {
        clock = clock;
        result = record run.result { ignored_observation_ids = ids };
      }))
    (keeping : (run : Run F) (clock : VirtualClock) (seen : Dict (Observation F)) (times : Dict ℕ)
      → P run
      → P (record run { clock = clock; last_state = seen; last_source_event = times }))
    (comparing : (run next : Run F) (previous current : Observation F) (fields : List Field)
      → compare_with iso floats policy scenario run previous current fields ≡ ok next
      → P run
      → P next) where
  turn-keeps :
      (stale : Bool) (previous : Option (Observation F)) (ignored kept next : Run F)
      (current : Observation F)
      → turn iso floats policy scenario stale previous ignored kept current ≡ ok next
      → P ignored
      → P kept
      → P next
  unfolding turn
  turn-keeps true previous ignored kept next current h pi pk = ok-ensures P pi h
  turn-keeps false none ignored kept next current h pi pk = ok-ensures P pk h
  turn-keeps false (some previous) ignored kept next current h pi pk =
      comparing kept next previous current (changed_fields previous current) h pk

  replay_step-keeps :
      (run next : Run F) (envelope : Envelope F)
      → replay_step iso floats policy scenario run envelope ≡ ok next
      → P run
      → P next
  unfolding replay_step
  replay_step-keeps run next envelope h p =
      let (target, moved, h1) = >>=-eq-ok (advance_to iso run.clock envelope.received_at).0 _ h in
      let (at, parsed, h2) =
        >>=-eq-ok (parse_timestamp iso envelope.observation.source_event_time) _ h1 in
      let clock = (advance_to iso run.clock envelope.received_at).1 in
      let current = envelope.observation in
      turn-keeps (is_stale at (lookup current.leg_id run.last_source_event))
        (lookup current.leg_id run.last_state) (ignore run clock current)
        (keep run clock current at) next current h2
        (ignoring run clock (ignore run clock current).result.ignored_observation_ids p)
        (keeping run clock (keep run clock current at).last_state
          (keep run clock current at).last_source_event p)

  replay_all-keeps :
      (run next : Run F) (envelopes : List (ℕ × Envelope F))
      → replay_all iso floats policy scenario run envelopes ≡ ok next
      → P run
      → P next
  unfolding replay_all
  replay_all-keeps run next [] h p = ok-ensures P p h
  replay_all-keeps run next ((at, envelope) ∷ rest) h p =
      let (mid, stepped, more) =
        >>=-eq-ok (replay_step iso floats policy scenario run envelope) _ h in
      replay_all-keeps mid next rest more (replay_step-keeps run mid envelope stepped p)

  -- A replay that returns has ended in a run where `P` holds.
  pub replay-ensures :
      (result : ReplayResult F)
      → replay iso floats policy scenario ≡ ok result
      → P new_run
      → (last : Run F) × (last.result ≡ result) × P last
  unfolding replay
  replay-ensures result h p =
      let (sorted, arranged, h1) = >>=-eq-ok (sort_by_arrival iso scenario.observations) _ h in
      let (last, replayed, h2) =
        >>=-eq-ok (replay_all iso floats policy scenario new_run sorted) _ h1 in
      (last, ok-injective h2, replay_all-keeps new_run last sorted replayed p)
