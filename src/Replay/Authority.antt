-- ===== src/Replay/Authority.antt =====
-- A replay judges every candidate once and notifies only by authority of a decision.
use mathlib.Core.Path.{subst}
use text.Mathlib.TextPositions.{eq_refl}
use flight_multi_agent.Base.{
  ℕ, ◌+◌, ◌≡◌, refl, Bool, true, false, not, ◌&&◌, List, [], ◌∷◌, ◌++◌, length, length-append, All,
  All-append, any, arith, Bool-cases, inl, inr, str_eq, if◌then◌else◌,
}
use flight_multi_agent.Base.Text.{fstring}
use flight_multi_agent.Base.Decimal.{decimal3}
use flight_multi_agent.Base.Result.{ok, >>=-eq-ok, ok-ensures}
use flight_multi_agent.Clock.{IsoFormat}
use flight_multi_agent.Evidence.{Candidate, Decision, Field, is_suppress}
use flight_multi_agent.Observation.{Floats, Observation}
use flight_multi_agent.Policy.{Policy, evaluate}
use flight_multi_agent.Replay.{
  Scenario, ReplayResult, Notification, Run, notification_for, build_candidate, judge, compare_with,
  replay,
}
use flight_multi_agent.Replay.Induction.{replay-ensures}

module _ {F : Type 0} where
  abbrev pub loud_count : List (Decision F) → ℕ
  loud_count [] = 0
  loud_count (d ∷ ds) = (if is_suppress d.verdict then 0 else 1) + loud_count ds

  -- A decision of the list that does not suppress has the notification's decision id.
  abbrev pub approved : List (Decision F) → Notification → Bool
  approved ds n = any (λ d. not (is_suppress d.verdict) && str_eq d.decision_id n.decision_id) ds

  loud_count-snoc :
      (ds : List (Decision F)) (d : Decision F)
      → loud_count (ds ++ d ∷ []) ≡ loud_count ds + (if is_suppress d.verdict then 0 else 1)
  loud_count-snoc [] d = omega arith
  loud_count-snoc (e ∷ ds) d = omega (arith, loud_count-snoc ds d)

  approved-snoc :
      (ds : List (Decision F)) (d : Decision F) (n : Notification)
      → approved ds n ≡ true
      → approved (ds ++ d ∷ []) n ≡ true
  approved-snoc [] d n h = cc
  approved-snoc (e ∷ ds) d n h = ground (arith, approved-snoc ds d n)

  approved-snoc_each :
      (ds : List (Decision F)) (d : Decision F) (ns : List Notification)
      → All (λ n. approved ds n ≡ true) ns
      → All (λ n. approved (ds ++ d ∷ []) n ≡ true) ns
  approved-snoc_each ds d [] a = tt
  approved-snoc_each ds d (n ∷ ns) a = (approved-snoc ds d n a.0, approved-snoc_each ds d ns a.1)

  approved_last :
      (ds : List (Decision F)) (d : Decision F) (n : Notification)
      → is_suppress d.verdict ≡ false
      → n.decision_id ≡ d.decision_id
      → approved (ds ++ d ∷ []) n ≡ true
  approved_last [] d n loud same = rw (loud, same, eq_refl d.decision_id)
  approved_last (e ∷ ds) d n loud same = ground (arith, approved_last ds d n loud same)

  -- Every candidate has its decision, every notification its approval, and every approval its
  -- notification.
  pub record IsAccounted (r : ReplayResult F) : Type 0 where
    pub judged : length r.decisions ≡ length r.candidates
    pub sent : length r.notifications ≡ loud_count r.decisions
    pub authority : All (λ n. approved r.decisions n ≡ true) r.notifications

  -- One more candidate and its decision, with the notification if it is not suppressed.
  IsAccounted-step :
      (r : ReplayResult F) (c : Candidate F) (d : Decision F) (n : Notification)
      → n.decision_id ≡ d.decision_id
      → IsAccounted r
      → IsAccounted (record r {
        candidates = r.candidates ++ c ∷ [];
        decisions = r.decisions ++ d ∷ [];
        notifications =
            if is_suppress d.verdict then r.notifications else r.notifications ++ n ∷ [];
      })
  IsAccounted-step r c d n same before =
      let kept = approved-snoc_each r.decisions d r.notifications before.authority in
      let counts = loud_count-snoc r.decisions d in
      let grows = length-append r.notifications (n ∷ []) in
      record {
        judged = omega (
          arith,
          before.judged,
          length-append r.decisions (d ∷ []),
          length-append r.candidates (c ∷ []),
        );
        sent = ground (arith, before.sent, counts, grows);
        authority = elim (Bool-cases (is_suppress d.verdict)) [
          | inl quiet ↦ rw quiet kept
          | inr loud ↦ rw loud (
              All-append _ r.notifications (n ∷ []) kept
                (approved_last r.decisions d n loud same, tt))
        ];
      }

module _ {F : Type 0} (iso : IsoFormat) (floats : Floats F) (policy : Policy)
    (scenario : Scenario F) where
  abbrev IsAccountedRun : Run F → Type 0
  IsAccountedRun run = IsAccounted run.result

  judge-IsAccounted :
      (run next : Run F) (c : Candidate F)
      → judge iso floats policy scenario run c ≡ ok next
      → IsAccountedRun run
      → IsAccountedRun next
  unfolding judge
  judge-IsAccounted run next c h before =
      let id = fstring ("decision-" ∷ scenario.scenario_id ∷ "-" ∷ decimal3 run.sequence ∷ []) in
      let (d, made, built) = >>=-eq-ok (evaluate iso policy c run.policy_state id).0 _ h in
      let n = notification_for scenario.scenario_id run.sequence c d in
      ok-ensures IsAccountedRun
        (IsAccounted-step run.result c d n (unfold notification_for in refl) before) built

  compare_with-IsAccounted :
      (run next : Run F) (previous current : Observation F) (fields : List Field)
      → compare_with iso floats policy scenario run previous current fields ≡ ok next
      → IsAccountedRun run
      → IsAccountedRun next
  unfolding compare_with
  compare_with-IsAccounted run next previous current [] h before =
      ok-ensures IsAccountedRun before h
  compare_with-IsAccounted run next previous current (field ∷ fields) h before =
      let counted : Run F = record run { sequence = run.sequence + 1 } in
      let (c, built, judged) =
        >>=-eq-ok
          (build_candidate iso floats policy scenario counted.sequence counted.clock previous
            current (field ∷ fields))
          _ h in
      judge-IsAccounted counted next c judged before

  -- Whatever the scenario and the policy, a replay that returns has one decision for each
  -- candidate and one notification for each decision that does not suppress, and every
  -- notification carries the id of such a decision.
  pub replay-IsAccounted :
      (result : ReplayResult F) → replay iso floats policy scenario ≡ ok result → IsAccounted result
  replay-IsAccounted result h =
      let (last, ends, accounted) =
        replay-ensures iso floats policy scenario IsAccountedRun
          (λ run clock ids p. record { judged = p.judged; sent = p.sent; authority = p.authority })
          (λ run clock seen times p. p) compare_with-IsAccounted result h
          (record { judged = refl; sent = refl; authority = tt }) in
      subst IsAccounted ends accounted
