-- ===== src/Webhook/Precedence.antt =====
-- Which of two callbacks prevails on one record.
use text.Mathlib.TextEquality.{eq_iff}
use flight_multi_agent.Base.{
  ◌≤◌, ◌<◌, ◌≡◌, ◌⊎◌, inl, inr, refl, sym, ap, ◌∙◌, String, true, false, Option, none, some, arith,
  Option-cases, is_some,
}
use flight_multi_agent.Events.{NotificationRecord, ActionStatus}
use flight_multi_agent.Webhook.{
  Callback, replacement, or_text, previous_status, is_terminal, progress_rank, ignored_because,
  IgnoredReason, action_status,
}
use flight_multi_agent.Webhook.Advance.{ignored_because-none}
use flight_multi_agent.Webhook.Alone.{advanced, renewed}

-- The later status is final, or the earlier one is not and has no higher rank.
abbrev pub Covers : Callback → Callback → Type 0
Covers later earlier =
    (is_terminal later.message_status ≡ true)
    ⊎ ((is_terminal earlier.message_status ≡ false)
        × (progress_rank earlier.message_status ≤ progress_rank later.message_status))

pub Covers-refl : (callback : Callback) → Covers callback callback
Covers-refl callback = ground arith

action_status-terminal :
    (s : String)
    → is_terminal s ≡ true
    → action_status s ≡ ActionStatus.delivered ⊎ action_status s ≡ ActionStatus.failed
unfolding action_status is_terminal
action_status-terminal s t = ground arith

rank-empty : (progress_rank "" ≡ 0) × (is_terminal "" ≡ false)
unfolding progress_rank is_terminal
rank-empty = (refl, refl)

module _ (now : String) (callback : Callback) (time : Option String)
    (current : NotificationRecord) where
  pub advanced-ignored :
      (reason : IgnoredReason)
      → ignored_because callback current ≡ some reason
      → advanced now callback time current ≡ current
  unfolding advanced
  advanced-ignored reason why = ground arith

  pub advanced-due :
      ignored_because callback current ≡ none
      → advanced now callback time current ≡ renewed now callback time current
  unfolding advanced
  advanced-due due = ground arith

module _ (now : String) (late early : Callback) (time_late time_early : Option String)
    (covers : Covers early late) (current : NotificationRecord) where
  pub late-ignored : is_some (ignored_because late (advanced now early time_early current)) ≡ true
  unfolding ignored_because advanced
  late-ignored =
      let before = previous_status current in
      let reported = early.message_status in
      ground (
        arith,
        rank-empty,
        action_status-terminal reported,
        eq_iff before reported,
        eq_iff before late.message_status,
        eq_iff reported late.message_status,
        eq_iff reported "",
      )

-- The later status is final and the earlier one is not, or it has a higher rank.
abbrev pub Supersedes : Callback → Callback → Type 0
Supersedes later earlier =
    (is_terminal earlier.message_status ≡ false)
    × ((is_terminal later.message_status ≡ true)
        ⊎ (progress_rank earlier.message_status < progress_rank later.message_status))

action_status-open : (s : String) → is_terminal s ≡ false → action_status s ≡ ActionStatus.accepted
unfolding action_status is_terminal
action_status-open s t = ground arith

module _ (now : String) (late early : Callback) (time_late time_early : Option String)
    (current : NotificationRecord) where
  module _ (supersedes : Supersedes late early) (due : ignored_because early current ≡ none) where
    pub superseded-due : ignored_because late current ≡ none
    unfolding ignored_because
    superseded-due =
        let advance = ignored_because-none early current due in
        let before = advance.unfinished in
        let closed = advance.not_closed in
        let rises = advance.rises in
        ground (arith, eq_iff (previous_status current) late.message_status)

    pub superseded-due_after :
        (time : String) → ignored_because late (replacement early time current) ≡ none
    unfolding ignored_because
    superseded-due_after time =
        let rises = (ignored_because-none early current due).rises in
        let reported = early.message_status in
        ground (
          arith,
          rank-empty,
          action_status-open reported,
          eq_iff reported late.message_status,
          eq_iff reported "",
        )

  pub advanced-overtakes :
      Supersedes late early
      → advanced now late time_late (advanced now early time_early current)
        ≡ advanced now late time_late current
  advanced-overtakes supersedes = elim (Option-cases (ignored_because early current)) [
    | inr (reason, why) ↦
        ap (advanced now late time_late) (advanced-ignored now early time_early current reason why)
    | inl due ↦
        let time = or_text time_early now in
        ap (advanced now late time_late) (advanced-due now early time_early current due)
        ∙ advanced-due now late time_late (replacement early time current)
            (superseded-due_after supersedes due time)
        ∙ sym (advanced-due now late time_late current (superseded-due supersedes due))
  ]
