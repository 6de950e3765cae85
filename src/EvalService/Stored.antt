-- ===== src/EvalService/Stored.antt =====
-- The store that a committed evaluation leaves, after its event was published or not.
use flight_multi_agent.Base.{
  ℕ, ◌≤◌, ◌≡◌, ◌≢◌, refl, sym, String, Option, none, some, arith, if◌then◌else◌, Option-cases,
  Bool-cases, inl, inr, ap, ◌∙◌, ◌&&◌,
}
use flight_multi_agent.Base.Text.{truthy, first_code}
use flight_multi_agent.Base.Assoc.{Dict}
use flight_multi_agent.Base.Result.{Result, ok}
use flight_multi_agent.Base.Table.{
  Key, Table, get_item, key_eq, get_item-delete_item, key_eq_refl, key_eq-apart_pk, key_eq_same,
}
use flight_multi_agent.Clock.{IsoFormat}
use flight_multi_agent.Evidence.{Candidate, Decision}
use flight_multi_agent.Policy.{Policy}
use flight_multi_agent.Events.{ConfirmedEvent, confirmed_outbox, outbox_record, OutboxRecord}
use flight_multi_agent.MonitoringStore.{
  Item, as_band, as_confirmed, get_decision, get_confirmed_event, get_policy_band, decision_key,
  band_key, outbox_key, confirmed_key,
}
use flight_multi_agent.MonitoringStore.Outbox.{delete_outbox, pending, record_key}
use flight_multi_agent.MonitoringStore.Outbox.Commit.{
  decision-committed, confirmed-committed, band-committed, pending-committed, pk_candidate, pk_band,
  pk_outbox,
}
use flight_multi_agent.EvalService.{
  Evaluation, episode_of, Calls, fresh_evaluation, commit_evaluation, publish_confirmed,
}
use flight_multi_agent.EvalService.Redelivery.{fresh-decided, notified-rises}

band-by_key :
    {F : Type 0} (table : Table (Item F)) (first other : String)
    → band_key first ≡ band_key other
    → get_policy_band table first ≡ get_policy_band table other
unfolding get_policy_band
band-by_key table first other same = ap (λ k. as_band (get_item k table)) same

module _ {F : Type 0} (iso : IsoFormat) (policy : Policy)
    (advise : Candidate F → Decision F → Result (Option String)) (headers : Dict String)
    (calls : Calls) where
  -- Publishing leaves every item outside the outbox.
  pub get-publish_confirmed :
      (event : Option ConfirmedEvent) (key : Key) (table : Table (Item F))
      → first_code key.pk ≢ 79
      → get_item key (publish_confirmed iso policy advise headers calls event table)
        ≡ get_item key table
  unfolding delete_outbox
  get-publish_confirmed none key table outside = refl
  get-publish_confirmed (some e) key table outside =
      let own = outbox_key "disruption_confirmed" e.decision_id in
      let apart = pk_outbox "disruption_confirmed" e.decision_id in
      let differ = key_eq-apart_pk own key (omega arith) in
      let got = get_item-delete_item own key table in ground arith

  module _ (c : Candidate F) (e : Evaluation F) (advice : Option String)
      (table : Table (Item F)) where
    abbrev pub committed : Table (Item F)
    committed = commit_evaluation headers c.candidate_id e advice table

    abbrev pub left_by : Table (Item F)
    left_by = publish_confirmed iso policy advise headers calls e.confirmed_event committed

    pub left_by-decision : get_decision left_by c.candidate_id ≡ some e.decision
    unfolding get_decision commit_evaluation
    left_by-decision =
        let key = decision_key c.candidate_id in
        let starts = pk_candidate c.candidate_id in
        let kept = get-publish_confirmed e.confirmed_event key committed (omega arith) in
        let put =
          decision-committed headers c.candidate_id e.decision e.confirmed_event e.episode_key
            e.notified_band advice table in
        ground arith

    pub left_by-band :
        (episode : String)
        → get_policy_band left_by episode ≡ (elim e.notified_band [
          | none ↦ get_policy_band table episode
          | some b ↦
              if truthy e.episode_key && key_eq (band_key e.episode_key) (band_key episode)
              then some b
              else get_policy_band table episode
        ])
    unfolding get_policy_band commit_evaluation
    left_by-band episode =
        let key = band_key episode in
        let starts = pk_band episode in
        let kept = get-publish_confirmed e.confirmed_event key committed (omega arith) in
        let put =
          band-committed headers c.candidate_id e.decision e.confirmed_event e.episode_key
            e.notified_band advice table episode in
        ap as_band kept ∙ put

    -- A notifying decision leaves its event, and the outbox holds it unless it was published.
    pub left_by-event :
        (event : ConfirmedEvent)
        → e.confirmed_event ≡ some event
        → let r : OutboxRecord F = confirmed_outbox headers event in
          (get_confirmed_event left_by c.candidate_id ≡ some event)
          × (pending left_by (record_key r) ≡ (if calls.publishes then none else some r))
    unfolding get_confirmed_event commit_evaluation confirmed_outbox outbox_record delete_outbox
    left_by-event event found =
        let r : OutboxRecord F = confirmed_outbox headers event in
        let key = confirmed_key c.candidate_id in
        let starts = pk_candidate c.candidate_id in
        let kept = get-publish_confirmed e.confirmed_event key committed (omega arith) in
        let put =
          confirmed-committed headers c.candidate_id e.decision e.confirmed_event e.episode_key
            e.notified_band advice table in
        let waits =
          pending-committed headers c.candidate_id e.decision e.confirmed_event e.episode_key
            e.notified_band advice table event found in
        let gone = get_item-delete_item (record_key r) (record_key r) committed in
        let same = key_eq_refl (record_key r) in
        let published : pending left_by (record_key r)
            ≡ (if calls.publishes then none else pending committed (record_key r)) =
          elim (Bool-cases calls.publishes) [ inl sent ↦ ground arith | inr lost ↦ ground arith ] in
        (ap as_confirmed kept ∙ ground arith, ground arith)

    pub left_by-rises :
        (episode : String) (b : ℕ)
        → fresh_evaluation iso policy table c ≡ ok e
        → get_policy_band table episode ≡ some b
        → (top : ℕ) × (get_policy_band left_by episode ≡ some top) × (b ≤ top)
    left_by-rises episode b fresh held =
        let left = left_by-band episode in
        let (d, decided, made) = fresh-decided iso policy advise headers calls c table e fresh in
        elim (Bool-cases (key_eq (band_key e.episode_key) (band_key episode))) [
          | inl same ↦
              let own : e.episode_key ≡ episode_of c = ap (λ x. x.episode_key) (sym made) in
              let keys = key_eq_same (band_key e.episode_key) (band_key episode) same in
              let held_own : get_policy_band table (episode_of c) ≡ some b =
                ap (get_policy_band table) (sym own)
                ∙ band-by_key table e.episode_key episode keys
                ∙ held in
              let (top, notified, above) =
                notified-rises iso policy advise headers calls c table e b fresh held_own in
              elim (Bool-cases (truthy e.episode_key)) [
                | inl named ↦ (top, ground arith, above)
                | inr unnamed ↦ (b, ground arith, omega arith)
              ]
          | inr different ↦ elim (Option-cases e.notified_band) [
            | inl missing ↦ (b, ground arith, omega arith)
            | inr (n, notified) ↦ (b, ground arith, omega arith)
          ]
        ]
