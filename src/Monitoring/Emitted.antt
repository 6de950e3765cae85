-- ===== src/Monitoring/Emitted.antt =====
-- What the block of the publication and the waits leave of the kept evidence.
use Prim.Native.String
use flight_multi_agent.Base.{
  ◌≡◌, refl, ◌∙◌, String, Option, none, some, List, [], ◌∷◌, All, arith, Bool-cases, Option-cases,
  if◌then◌else◌, inl, inr,
}
use flight_multi_agent.Base.Text.{first_code, first_code-cons}
use flight_multi_agent.Base.Table.{
  Key, Table, get_item, get_item-put_item, put_item, get_item-delete_item, key_eq-apart_sk,
}
use flight_multi_agent.Base.Assoc.{Dict}
use flight_multi_agent.Evidence.{Candidate, Decision}
use flight_multi_agent.Events.{
  EventType, event_type_text, OutboxRecord, candidate_outbox, disruption_candidate,
}
use flight_multi_agent.MonitoringStore.{
  Item, get_decision, candidate, outbox_key, get_notification, get_search,
}
use flight_multi_agent.MonitoringStore.Outbox.{
  put_candidate, put_candidate_with_outbox, delete_outbox, source_key, trip_candidate_key,
  record_key, outbox_item,
}
use flight_multi_agent.Monitoring.{PollRequest, PollOutcome, Outside, World}
use flight_multi_agent.Monitoring.Poll.{
  emit, wait_for, after_decision, report, persist, fresh_flight,
}
use flight_multi_agent.Monitoring.Judge.{PollEvidence}

module _ {F : Type 0} (key : Key) (starts : first_code key.sk ≡ 76) where
  get_item-put_candidate :
      (c : Candidate F) (table : Table (Item F))
      → get_item key (put_candidate table c) ≡ get_item key table
  unfolding put_candidate
  get_item-put_candidate c table =
      let own = first_code-cons "C" "ANDIDATE#" (String.◌++◌ c.candidate_id "") in
      let a = key_eq-apart_sk (source_key c.candidate_id) key (omega arith) in
      let b = key_eq-apart_sk (trip_candidate_key c.trip_id c.candidate_id) key (omega arith) in
      let inner = put_item (trip_candidate_key c.trip_id c.candidate_id) (candidate c) table in
      let first = get_item-put_item (source_key c.candidate_id) key (candidate c) inner in
      let second =
        get_item-put_item (trip_candidate_key c.trip_id c.candidate_id) key (candidate c) table in
      ground arith

  get_item-put_candidate_with_outbox :
      (headers : Dict String) (c : Candidate F) (table : Table (Item F))
      → get_item key (put_candidate_with_outbox table headers c) ≡ get_item key table
  unfolding put_candidate_with_outbox
  get_item-put_candidate_with_outbox headers c table =
      let r : OutboxRecord F = candidate_outbox headers c in
      let own = first_code-cons "E" "VENT#" (String.◌++◌ r.event_id "") in
      let apart = key_eq-apart_sk (record_key r) key (omega arith) in
      let got = get_item-put_item (record_key r) key (outbox_item r) (put_candidate table c) in
      let rest = get_item-put_candidate c table in ground arith

  get_item-delete_outbox :
      (event_type : EventType) (id : String) (table : Table (Item F))
      → get_item key (delete_outbox table event_type id) ≡ get_item key table
  unfolding delete_outbox
  get_item-delete_outbox event_type id table =
      let own_key = outbox_key (event_type_text event_type) id in
      let own = first_code-cons "E" "VENT#" (String.◌++◌ id "") in
      let apart = key_eq-apart_sk own_key key (omega arith) in
      let got = get_item-delete_item own_key key table in ground arith

  -- The block of the publication does not touch the kept evidence.
  pub get_item-emit :
      (outside : Outside F) (c : Candidate F) (w : World F)
      → get_item key (emit outside c w).1.store ≡ get_item key w.store
  unfolding emit
  get_item-emit outside c w =
      let put = put_candidate_with_outbox w.store outside.active_headers c in
      let first = get_item-put_candidate_with_outbox outside.active_headers c w.store in
      let second = get_item-delete_outbox disruption_candidate c.candidate_id put in ground arith

-- Another caller that leaves an item as it was.
abbrev pub IsKept : {F : Type 0} → Key → (Table (Item F) → Table (Item F)) → Type 0
IsKept key other = (table : _) → get_item key (other table) ≡ get_item key table

module _ {F : Type 0} (key : Key) where
  pub get_item-wait_for :
      {A : Type 0} (read : Table (Item F) → Option A)
      (others : List (Table (Item F) → Table (Item F))) (table : Table (Item F))
      → All (IsKept key) others
      → get_item key (wait_for read others table).1 ≡ get_item key table
  unfolding wait_for
  get_item-wait_for read [] table kept = refl
  get_item-wait_for read (other ∷ others) table kept =
      let rest = get_item-wait_for read others (other table) kept.1 in
      let first = kept.0 table in
      elim (Option-cases (read table)) [
        | inl missing ↦ ground arith
        | inr (found, present) ↦ ground arith
      ]

  module _ (outside : Outside F) (request : PollRequest)
      (kept_waiting : All (IsKept key) outside.waiting)
      (kept_notified : All (IsKept key) outside.until_notified)
      (kept_searched : All (IsKept key) outside.until_searched) where
    get_item-after_decision :
        (id : String) (reading : Option (Decision F) × Table (Item F)) (o : PollOutcome F)
        → get_item key (after_decision outside request id reading o).1 ≡ get_item key reading.1
    unfolding after_decision
    get_item-after_decision id (none, table) o = refl
    get_item-after_decision id (some d, table) o =
        let notified =
          wait_for (λ store. get_notification store d.decision_id) outside.until_notified table in
        let first =
          get_item-wait_for (λ store. get_notification store d.decision_id) outside.until_notified
            table kept_notified in
        let second =
          get_item-wait_for (λ store. get_search store d.decision_id) outside.until_searched
            notified.1 kept_searched in
        ground arith

    -- A candidate that is published has the evidence persisted, and no other is.
    pub get_item-report :
        (e : PollEvidence F) (c : Candidate F) (w : World F)
        → first_code key.sk ≡ 76
        → get_item key (report outside request e c w).1.store ≡ (
            if (emit outside c w).0
            then get_item key
                (persist request (fresh_flight e) e.current_weather (emit outside c w).1.store)
            else get_item key w.store)
    unfolding report
    get_item-report e c w starts =
        let emitted = emit outside c w in
        let kept = persist request (fresh_flight e) e.current_weather emitted.1.store in
        elim (Bool-cases emitted.0) [
          | inl done ↦ rw done (
              get_item-after_decision c.candidate_id
                (wait_for (λ store. get_decision store c.candidate_id) outside.waiting kept) _
              ∙ get_item-wait_for (λ store. get_decision store c.candidate_id) outside.waiting kept
                  kept_waiting)
          | inr failed ↦ rw failed (get_item-emit key starts outside c w)
        ]
