-- ===== src/Metrics/Replayed.antt =====
-- What the metrics say of the results of replays.
use flight_multi_agent.Base.{
  ◌≡◌, ◌≢◌, inl, inr, refl, sym, ap, ◌∙◌, String, Bool, true, false, not, List, [], ◌∷◌, any, All,
  All-weaken, arith, str_eq, eq_iff, Bool-cases,
}
use flight_multi_agent.Base.Json.{Json}
use flight_multi_agent.Base.Result.{ok, >>=-eq-ok, or_raise, key_error, ok-injective}
use flight_multi_agent.Clock.{IsoFormat}
use flight_multi_agent.Evidence.{
  Verdict, suppress, notify, notify_and_search, is_suppress, Decision,
}
use flight_multi_agent.Observation.{Floats}
use flight_multi_agent.Policy.{Policy}
use flight_multi_agent.Replay.{Scenario, Notification, replay}
use flight_multi_agent.Replay.Authority.{approved, replay-IsAccounted}
use flight_multi_agent.Replay.NoDuplicates.{KeysDiffer, replay-KeysDiffer}
use flight_multi_agent.Metrics.{
  Gold, SuiteResult, Counts, SuiteMetrics, is_loud, verdict_text, is_approved, count_notifications,
  count_result, gold_of, count_suite, no_counts, calculate_metrics,
}

is_loud-verdict : (v : Verdict) → is_loud (verdict_text v) ≡ not (is_suppress v)
is_loud-verdict suppress = refl
is_loud-verdict notify = refl
is_loud-verdict notify_and_search = refl

later-unseen :
    (n : Notification) (ns : List Notification) (keys : List String)
    → All (λ m. n.idempotency_key ≢ m.idempotency_key) ns
    → All (λ m. any (str_eq m.idempotency_key) keys ≡ false) ns
    → All (λ m. any (str_eq m.idempotency_key) (n.idempotency_key ∷ keys) ≡ false) ns
later-unseen n [] keys differ unseen = tt
later-unseen n (m ∷ ns) keys differ unseen =
    let apart = differ.0 in
    let missing = unseen.0 in
    (
      elim (Bool-cases (str_eq m.idempotency_key n.idempotency_key)) [
        | inl same ↦ absurd (apart (sym ((eq_iff m.idempotency_key n.idempotency_key).0 same)))
        | inr other ↦ ground arith
      ],
      later-unseen n ns keys differ.1 unseen.1,
    )

nothing-seen : (ns : List Notification) → All (λ n. any (str_eq n.idempotency_key) [] ≡ false) ns
nothing-seen [] = tt
nothing-seen (n ∷ ns) = (refl, nothing-seen ns)

module _ {F : Type 0} (decisions : List (Decision F)) where
  is_approved-approved :
      (ds : List (Decision F)) (n : Notification) → is_approved ds n ≡ approved ds n
  is_approved-approved [] n = refl
  is_approved-approved (d ∷ ds) n =
      let rest = is_approved-approved ds n in let loud = is_loud-verdict d.verdict in ground arith

  -- Notifications that are approved leave the count of those that are not.
  count_notifications-approved :
      (ns : List Notification) (counts : Counts)
      → All (λ n. is_approved decisions n ≡ true) ns
      → (count_notifications decisions ns counts).unauthorized ≡ counts.unauthorized
  unfolding count_notifications
  count_notifications-approved [] counts each = refl
  count_notifications-approved (n ∷ ns) counts each =
      let first = each.0 in count_notifications-approved ns _ each.1 ∙ ground arith

  -- Keys that differ, also from those that were seen, leave the count of the duplicates.
  count_notifications-differ :
      (ns : List Notification) (counts : Counts)
      → KeysDiffer ns
      → All (λ n. any (str_eq n.idempotency_key) counts.notification_keys ≡ false) ns
      → (count_notifications decisions ns counts).duplicate_keys ≡ counts.duplicate_keys
  unfolding count_notifications
  count_notifications-differ [] counts differ unseen = refl
  count_notifications-differ (n ∷ ns) counts differ unseen =
      let first = unseen.0 in
      count_notifications-differ ns _ differ.1
        (later-unseen n ns counts.notification_keys differ.0 unseen.1)
      ∙ ground arith

module _ {F : Type 0} (same : Json → Json → Bool) (iso : IsoFormat) (floats : Floats F)
    (policy : Policy) where
  -- The result is that of a replay of a scenario.
  abbrev pub IsReplayed : SuiteResult F → Type 0
  IsReplayed r = (scenario : Scenario F) × (replay iso floats policy scenario ≡ ok r.result)

  replayed-approved :
      (r : SuiteResult F)
      → IsReplayed r
      → All (λ n. is_approved r.result.decisions n ≡ true) r.result.notifications
  replayed-approved r (scenario, returned) =
      let accounted = replay-IsAccounted iso floats policy scenario r.result returned in
      All-weaken (λ n. approved r.result.decisions n ≡ true)
        (λ n. is_approved r.result.decisions n ≡ true) r.result.notifications
        (λ n holds. is_approved-approved r.result.decisions r.result.decisions n ∙ holds)
        accounted.authority

  count_suite-authorized :
      (expected : List Gold) (results : List (SuiteResult F)) (counts last : Counts)
      → All IsReplayed results
      → count_suite same expected results counts ≡ ok last
      → last.unauthorized ≡ counts.unauthorized
  unfolding count_suite count_result
  count_suite-authorized expected [] counts last each counted =
      ap (λ c. c.unauthorized) (sym (ok-injective counted))
  count_suite-authorized expected (r ∷ results) counts last each counted =
      let (gold, found, rest) =
        >>=-eq-ok (or_raise (gold_of r.scenario_id expected) key_error) _ counted in
      count_suite-authorized expected results (count_result same r gold counts) last each.1 rest
      ∙ count_notifications-approved r.result.decisions r.result.notifications _
          (replayed-approved r each.0)

  -- The metrics of a suite of replays, whatever the scenarios, the policy and the expectations, count
  -- no unauthorized notification.
  pub calculate_metrics-authorized :
      (results : List (SuiteResult F)) (expected : List Gold) (metrics : SuiteMetrics F)
      → All IsReplayed results
      → calculate_metrics same floats results expected ≡ ok metrics
      → metrics.unauthorized_notification_count ≡ 0
  unfolding calculate_metrics
  calculate_metrics-authorized results expected metrics each measured =
      let (counts, counted, rest) =
        >>=-eq-ok (count_suite same expected results no_counts) _ measured in
      let clean = count_suite-authorized expected results no_counts counts each counted in
      ap (λ m. m.unauthorized_notification_count) (sym (ok-injective rest)) ∙ clean

  -- The notifications of one replay have no duplicate key.
  pub count_result_unique :
      (r : SuiteResult F) (gold : Gold)
      → IsReplayed r
      → (count_result same r gold no_counts).duplicate_keys ≡ 0
  unfolding count_result
  count_result_unique r gold (scenario, returned) =
      count_notifications-differ r.result.decisions r.result.notifications _
        (replay-KeysDiffer iso floats policy scenario r.result returned)
        (nothing-seen r.result.notifications)
