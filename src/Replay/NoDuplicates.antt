-- ===== src/Replay/NoDuplicates.antt =====
-- A replay never sends two notifications under one idempotency key.
use mathlib.Core.Path.{subst}
use text.Mathlib.TextPositions.{eq_refl}
use flight_multi_agent.Base.{
  ℕ, ◌+◌, ◌≤◌, ◌≡◌, ◌≢◌, sym, ap, ◌∙◌, String, false, some, List, [], ◌∷◌, ◌++◌, All, All-append,
  arith, Bool-cases, inl, inr,
}
use flight_multi_agent.Base.Result.{ok, >>=-eq-ok, ok-ensures}
use flight_multi_agent.Base.Text.{fstring}
use flight_multi_agent.Base.Decimal.{decimal3}
use flight_multi_agent.Clock.{IsoFormat}
use flight_multi_agent.Evidence.{Candidate, Decision, is_suppress, Field}
use flight_multi_agent.Observation.{Floats, Observation}
use flight_multi_agent.Policy.{Policy, PolicyState, evaluate, severity_band, episode_key}
use flight_multi_agent.Policy.Rules.{notifies_iff}
use flight_multi_agent.Policy.History.{band_of, history-evaluate, evaluate_rises}
use flight_multi_agent.Replay.{
  Scenario, ReplayResult, Notification, Run, notification_for, build_candidate, judge, compare_with,
  replay,
}
use flight_multi_agent.Replay.Induction.{replay-ensures}
use flight_multi_agent.Replay.Keys.{keyed, keyed-injective, key-eq-keyed, severity_band-le}

-- The history holds the band of the notification's key, or a higher one.
pub record IsRecorded (state : PolicyState) (n : Notification) : Type 0 where
  pub episode : String
  pub band : ℕ
  pub top : ℕ
  pub key : n.idempotency_key ≡ keyed episode band
  pub small : band ≤ 3
  pub held : band_of state episode ≡ some top
  pub below : band ≤ top

-- No two notifications of the list have the same key.
abbrev pub KeysDiffer : List Notification → Type 0
KeysDiffer [] = Unit
KeysDiffer (n ∷ ns) = All (λ m. n.idempotency_key ≢ m.idempotency_key) ns × KeysDiffer ns

KeysDiffer-snoc :
    (ns : List Notification) (m : Notification)
    → KeysDiffer ns
    → All (λ n. n.idempotency_key ≢ m.idempotency_key) ns
    → KeysDiffer (ns ++ m ∷ [])
KeysDiffer-snoc [] m d a = (tt, tt)
KeysDiffer-snoc (n ∷ ns) m d a =
    (All-append _ ns (m ∷ []) d.0 (a.0, tt), KeysDiffer-snoc ns m d.1 a.1)

abbrev IsClean : PolicyState → List Notification → Type 0
IsClean state ns = All (IsRecorded state) ns × KeysDiffer ns

module _ {F : Type 0} (iso : IsoFormat) (policy : Policy) (c : Candidate F) (state : PolicyState)
    (id : String) where
  abbrev after : PolicyState
  after = (evaluate iso policy c state id).1

  IsRecorded-after : (n : Notification) → IsRecorded state n → IsRecorded after n
  IsRecorded-after n r =
      let (top, held, above) = evaluate_rises iso policy c state id r.episode r.top r.held in
      record {
        episode = r.episode;
        band = r.band;
        top = top;
        key = r.key;
        small = r.small;
        held = held;
        below = omega arith;
      }

  IsRecorded-after_each :
      (ns : List Notification) → All (IsRecorded state) ns → All (IsRecorded after) ns
  IsRecorded-after_each [] a = tt
  IsRecorded-after_each (n ∷ ns) a = (IsRecorded-after n a.0, IsRecorded-after_each ns a.1)

  module _ (d : Decision F) (made : (evaluate iso policy c state id).0 ≡ ok d)
      (loud : is_suppress d.verdict ≡ false) (scenario_id : String) (sequence : ℕ) where
    abbrev sent : Notification
    sent = notification_for scenario_id sequence c d

    sent-IsRecorded : IsRecorded after sent
    sent-IsRecorded = record {
      episode = episode_key c;
      band = severity_band c;
      top = severity_band c;
      key = key-eq-keyed scenario_id sequence c d;
      small = severity_band-le c;
      held =
          history-evaluate iso policy c state id d (episode_key c) made
          ∙ rw (loud, eq_refl (episode_key c));
      below = omega arith;
    }

    fresh : (n : Notification) → IsRecorded state n → n.idempotency_key ≢ sent.idempotency_key
    fresh n r same =
        let (at, height) =
          keyed-injective r.episode (episode_key c) r.band (severity_band c) r.small
            (severity_band-le c) (sym r.key ∙ same ∙ key-eq-keyed scenario_id sequence c d) in
        let escalates = ((notifies_iff iso policy c state id d made).0 loud).1 in
        absurd (omega (arith, r.below, escalates r.top (ap (band_of state) (sym at) ∙ r.held)))

    fresh_each :
        (ns : List Notification)
        → All (IsRecorded state) ns
        → All (λ n. n.idempotency_key ≢ sent.idempotency_key) ns
    fresh_each [] a = tt
    fresh_each (n ∷ ns) a = (fresh n a.0, fresh_each ns a.1)

    IsClean-sent : (ns : List Notification) → IsClean state ns → IsClean after (ns ++ sent ∷ [])
    IsClean-sent ns h = (
      All-append _ ns (sent ∷ []) (IsRecorded-after_each ns h.0) (sent-IsRecorded, tt),
      KeysDiffer-snoc ns sent h.1 (fresh_each ns h.0),
    )

module _ {F : Type 0} (iso : IsoFormat) (floats : Floats F) (policy : Policy)
    (scenario : Scenario F) where
  abbrev IsCleanRun : Run F → Type 0
  IsCleanRun run = IsClean run.policy_state run.result.notifications

  judge-IsCleanRun :
      (run next : Run F) (c : Candidate F)
      → judge iso floats policy scenario run c ≡ ok next
      → IsCleanRun run
      → IsCleanRun next
  unfolding judge
  judge-IsCleanRun run next c h clean =
      let id = fstring ("decision-" ∷ scenario.scenario_id ∷ "-" ∷ decimal3 run.sequence ∷ []) in
      let ns = run.result.notifications in
      let state = run.policy_state in
      let (d, made, built) = >>=-eq-ok (evaluate iso policy c state id).0 _ h in
      ok-ensures IsCleanRun
        (elim (Bool-cases (is_suppress d.verdict)) [
          | inl quiet ↦ rw quiet (IsRecorded-after_each iso policy c state id ns clean.0, clean.1)
          | inr loud ↦ rw loud (
              IsClean-sent iso policy c state id d made loud scenario.scenario_id run.sequence ns
                clean)
        ])
        built

  compare_with-IsCleanRun :
      (run next : Run F) (previous current : Observation F) (fields : List Field)
      → compare_with iso floats policy scenario run previous current fields ≡ ok next
      → IsCleanRun run
      → IsCleanRun next
  unfolding compare_with
  compare_with-IsCleanRun run next previous current [] h clean = ok-ensures IsCleanRun clean h
  compare_with-IsCleanRun run next previous current (field ∷ fields) h clean =
      let counted : Run F = record run { sequence = run.sequence + 1 } in
      let (c, built, judged) =
        >>=-eq-ok
          (build_candidate iso floats policy scenario counted.sequence counted.clock previous
            current (field ∷ fields))
          _ h in
      judge-IsCleanRun counted next c judged clean

  -- No two notifications of a replay have the same idempotency key, whatever the scenario and the
  -- policy.
  pub replay-KeysDiffer :
      (result : ReplayResult F)
      → replay iso floats policy scenario ≡ ok result
      → KeysDiffer result.notifications
  replay-KeysDiffer result h =
      let (last, ends, clean) =
        replay-ensures iso floats policy scenario IsCleanRun (λ run clock ids p. p)
          (λ run clock seen times p. p) compare_with-IsCleanRun result h (tt, tt) in
      subst (λ (r : ReplayResult F). KeysDiffer r.notifications) ends clean.1
