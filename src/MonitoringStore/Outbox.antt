-- ===== src/MonitoringStore/Outbox.antt =====
-- The transactional outbox of the store and its dead letters. A query returns the items of a
-- partition in the order of their sort keys.
pub mod Commit
pub mod DeadLetters
use Prim.Native.String.{compare}
use Prim.Native.Nat.{Ordering}
use flight_multi_agent.Base.{
  ℕ, suc, String, Bool, true, false, Option, none, some, List, [], ◌∷◌, if◌then◌else◌, str_eq, take,
  length, map,
}
use flight_multi_agent.Base.Text.{fstring, truthy}
use flight_multi_agent.Base.Assoc.{Dict}
use flight_multi_agent.Base.Table.{Key, Table, get_item, put_item, delete_item}
use flight_multi_agent.Evidence.{Candidate, Decision}
use flight_multi_agent.Events.{
  ConfirmedEvent, EventType, event_type_text, OutboxRecord, Payload, candidate_outbox,
  confirmed_outbox,
}
use flight_multi_agent.MonitoringStore.{
  Item, OutboxItem, DeadLetter, candidate, confirmed, band, advisory, decision, outbox, dead_letter,
  as_candidate, candidate_partition, outbox_key, confirmed_key, band_key, advisory_key,
  decision_key,
}

abbrev pub trip_candidate_key : String → String → Key
trip_candidate_key trip_id candidate_id = record {
  pk = fstring ("TRIP#" ∷ trip_id ∷ []);
  sk = fstring ("CANDIDATE#" ∷ candidate_id ∷ []);
}

abbrev pub source_key : String → Key
source_key candidate_id = record { pk = candidate_partition candidate_id; sk = "SOURCE" }

abbrev pub dead_letter_key : String → String → Key
dead_letter_key consumer event_id = record {
  pk = fstring ("DEADLETTER#" ∷ consumer ∷ []);
  sk = fstring ("EVENT#" ∷ event_id ∷ []);
}

module _ {F : Type 0} where
  abbrev pub record_key : OutboxRecord F → Key
  record_key r = outbox_key (event_type_text r.event_type) r.event_id

  abbrev pub as_outbox : Option (Item F) → Option (OutboxItem F)
  as_outbox (some (outbox item)) = some item
  as_outbox _ = none

  abbrev pub outbox_item : OutboxRecord F → Item F
  outbox_item r = outbox (record { payload = some r; publish_attempts = 0; last_attempt_at = none })

  -- The payload of the outbox item under a key.
  abbrev pub pending : Table (Item F) → Key → Option (OutboxRecord F)
  pending table key = elim (as_outbox (get_item key table)) [ none ↦ none | some i ↦ i.payload ]

  -- Inserts an item by its sort key.
  by_sort_key : Key × Item F → Table (Item F) → Table (Item F)
  by_sort_key item [] = item ∷ []
  by_sort_key item (first ∷ items) =
      let later = first ∷ by_sort_key item items in
      elim (compare item.0.sk first.0.sk) [ Ordering.gt ↦ later | _ ↦ item ∷ first ∷ items ]

  -- The items of a partition.
  query : String → Table (Item F) → Table (Item F)
  query pk [] = []
  query pk (item ∷ items) =
      let found = query pk items in if str_eq item.0.pk pk then by_sort_key item found else found

  payloads : Table (Item F) → List (OutboxRecord F)
  payloads [] = []
  payloads (item ∷ items) =
      let rest = payloads items in
      elim (as_outbox (some item.1)) [
        | none ↦ rest
        | some i ↦ elim i.payload [ none ↦ rest | some r ↦ r ∷ rest ]
      ]

  abbrev pub after_failure : String → Option (OutboxItem F) → OutboxItem F
  after_failure attempted none = record {
    payload = none;
    publish_attempts = 1;
    last_attempt_at = some attempted;
  }
  after_failure attempted (some item) = record {
    payload = item.payload;
    publish_attempts = suc item.publish_attempts;
    last_attempt_at = some attempted;
  }

  module _ (table : Table (Item F)) where
    unfoldable pub put_candidate : Candidate F → Table (Item F)
    put_candidate c =
        put_item (source_key c.candidate_id) (candidate c)
          (put_item (trip_candidate_key c.trip_id c.candidate_id) (candidate c) table)

    unfoldable pub get_candidate : String → Option (Candidate F)
    get_candidate candidate_id = as_candidate (get_item (source_key candidate_id) table)

    -- One transaction.
    unfoldable pub put_candidate_with_outbox : Dict String → Candidate F → Table (Item F)
    unfolding put_candidate
    put_candidate_with_outbox active_headers c =
        let r = candidate_outbox active_headers c in
        put_item (record_key r) (outbox_item r) (put_candidate c)

    -- The items of one transaction, in order: each is put on those before it.
    with_event : String → Option ConfirmedEvent → Table (Item F)
    with_event candidate_id none = table
    with_event candidate_id (some e) = put_item (confirmed_key candidate_id) (confirmed e) table

    with_band : String → Option ℕ → Table (Item F)
    with_band episode none = table
    with_band episode (some b) =
        if truthy episode then put_item (band_key episode) (band b) table else table

    with_advisory : String → Option String → Table (Item F)
    with_advisory candidate_id none = table
    with_advisory candidate_id (some text) =
        put_item (advisory_key candidate_id) (advisory text) table

    with_decision : String → Decision F → Table (Item F)
    with_decision candidate_id d = put_item (decision_key candidate_id) (decision d) table

    with_outbox : Dict String → Option ConfirmedEvent → Table (Item F)
    with_outbox active_headers none = table
    with_outbox active_headers (some e) =
        let r = confirmed_outbox active_headers e in put_item (record_key r) (outbox_item r) table

    unfoldable pub list_outbox : EventType → ℕ → List (OutboxRecord F)
    unfolding payloads query by_sort_key
    list_outbox event_type maximum =
        payloads
          (take maximum (query (fstring ("OUTBOX#" ∷ event_type_text event_type ∷ [])) table))

    unfoldable pub outbox_count : EventType → ℕ
    unfolding query by_sort_key
    outbox_count event_type =
        length (query (fstring ("OUTBOX#" ∷ event_type_text event_type ∷ [])) table)

    unfoldable pub delete_outbox : EventType → String → Table (Item F)
    delete_outbox event_type event_id =
        delete_item (outbox_key (event_type_text event_type) event_id) table

    -- An update also creates the item that it does not find.
    unfoldable pub note_outbox_failure : String → EventType → String → Table (Item F)
    note_outbox_failure attempted event_type event_id =
        let key = outbox_key (event_type_text event_type) event_id in
        put_item key (outbox (after_failure attempted (as_outbox (get_item key table)))) table

    unfoldable pub put_dead_letter :
        String → String → String → Option (Payload F) → String → ℕ → Table (Item F)
    put_dead_letter recorded_at consumer event_id payload error_code attempts =
        put_item (dead_letter_key consumer event_id)
          (dead_letter (record {
            payload = payload;
            error_code = error_code;
            attempts = attempts;
            status = "active";
            recorded_at = recorded_at;
            redrive_request_id = none;
            redriven_at = none;
          }))
          table

  unfoldable pub commit_evaluation_with_outbox :
      Dict String
      → String
      → Decision F
      → Option ConfirmedEvent
      → String
      → Option ℕ
      → Option String
      → Table (Item F)
      → Table (Item F)
  unfolding with_event with_band with_advisory with_decision with_outbox
  commit_evaluation_with_outbox active_headers candidate_id d event episode notified advice table =
      with_outbox
        (with_decision
          (with_advisory (with_band (with_event table candidate_id event) episode notified)
            candidate_id advice)
          candidate_id d)
        active_headers event
