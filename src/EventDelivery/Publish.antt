-- ===== src/EventDelivery/Publish.antt =====
-- What a pass of the background publisher leaves in the outbox.
use flight_multi_agent.Base.{
  ℕ, suc, ◌+◌, ◌≡◌, refl, String, Bool, true, false, ◌&&◌, ◌||◌, none, List, [], ◌∷◌, if◌then◌else◌,
  any, all, arith, Bool-cases, inl, inr, length, filter,
}
use flight_multi_agent.Base.Result.{ok, raise, runtime_error}
use flight_multi_agent.Base.Table.{Key, Table, key_eq}
use flight_multi_agent.Events.{EventType, event_type_text, OutboxRecord}
use flight_multi_agent.MonitoringStore.{Item, outbox_key}
use flight_multi_agent.MonitoringStore.Outbox.{
  list_outbox, pending, delete_outbox, note_outbox_failure,
}
use flight_multi_agent.MonitoringStore.Laws.{pending-delete_outbox, pending-note_outbox_failure}
use flight_multi_agent.EventDelivery.{
  PublisherCalls, publish_record, publish_all, publish_pending_outbox,
}

module _ {F : Type 0} (calls : PublisherCalls F) where
  -- The record is acknowledged and deleted, or its failure is noted.
  abbrev pub is_delivered : OutboxRecord F → Bool
  is_delivered r = calls.publish r && calls.deletes r

  abbrev pub is_handled : OutboxRecord F → Bool
  is_handled r = is_delivered r || calls.notes r

  -- The records before the first one whose failure cannot be noted.
  abbrev pub handled : List (OutboxRecord F) → List (OutboxRecord F)
  handled [] = []
  handled (r ∷ records) = let rest = handled records in if is_handled r then r ∷ rest else []

  -- The record is delivered, and the key is its own.
  abbrev pub is_published : EventType → Key → OutboxRecord F → Bool
  is_published event_type key r =
      is_delivered r && key_eq (outbox_key (event_type_text event_type) r.event_id) key

module _ {F : Type 0} (calls : PublisherCalls F) (now : String) (event_type : EventType) where
  publish_record-noted :
      (r : OutboxRecord F) (published : ℕ) (table : Table (Item F))
      → is_delivered calls r ≡ false
      → calls.notes r ≡ true
      → publish_record calls now event_type r published table
        ≡ (ok published, note_outbox_failure table now event_type r.event_id)
  unfolding publish_record
  publish_record-noted r published table failed noted = ground arith

  publish_record-done :
      (r : OutboxRecord F) (published : ℕ) (table : Table (Item F))
      → is_delivered calls r ≡ true
      → publish_record calls now event_type r published table
        ≡ (ok (suc published), delete_outbox table event_type r.event_id)
  unfolding publish_record
  publish_record-done r published table done = ground arith

  publish_record-stops :
      (r : OutboxRecord F) (published : ℕ) (table : Table (Item F))
      → is_handled calls r ≡ false
      → publish_record calls now event_type r published table ≡ (raise runtime_error, table)
  unfolding publish_record
  publish_record-stops r published table stopped = ground arith

  -- What the records of a list leave of the outbox, and what they add to the count.
  abbrev Leaves : Key → List (OutboxRecord F) → ℕ → Table (Item F) → Type 0
  Leaves key records published table =
      let after = publish_all calls now event_type records published table in
      (pending after.1 key ≡ (
        if any (is_published calls event_type key) (handled calls records)
        then none
        else pending table key))
      × (after.0 ≡ (
          if all (is_handled calls) records
          then ok (published + length (filter (is_delivered calls) records))
          else raise runtime_error))

  publish_all-Leaves :
      (key : Key) (records : List (OutboxRecord F)) (published : ℕ) (table : Table (Item F))
      → Leaves key records published table
  unfolding publish_all
  publish_all-Leaves key [] published table = (refl, ground arith)
  publish_all-Leaves key (r ∷ records) published table = elim (Bool-cases (is_delivered calls r)) [
    | inl done ↦
        let next = delete_outbox table event_type r.event_id in
        let step = publish_record-done r published table done in
        let deleted = pending-delete_outbox table event_type r.event_id key in
        let (left, count) = publish_all-Leaves key records (suc published) next in
        (ground arith, ground arith)
    | inr failed ↦ elim (Bool-cases (calls.notes r)) [
      | inl noted ↦
          let next = note_outbox_failure table now event_type r.event_id in
          let step = publish_record-noted r published table failed noted in
          let kept = pending-note_outbox_failure table event_type r.event_id key now in
          let (left, count) = publish_all-Leaves key records published next in
          (ground arith, ground arith)
      | inr lost ↦
          let step = publish_record-stops r published table (ground arith) in
          (ground arith, ground arith)
    ]
  ]

  -- A pass goes through the records that it lists, up to the first one whose failure cannot be
  -- noted. Of these, each one whose publication is acknowledged and whose deletion succeeds is no
  -- longer pending, and every other record of the outbox, listed or not, is pending as it was. The
  -- pass returns the number of the records that it has published and deleted, and raises where it
  -- has not come to the end.
  pub publish_pending_outbox-pending :
      (maximum : ℕ) (table : Table (Item F)) (key : Key)
      → let records = list_outbox table event_type maximum in
        let after = publish_pending_outbox calls now event_type maximum table in
        (pending after.1 key ≡ (
          if any (is_published calls event_type key) (handled calls records)
          then none
          else pending table key))
        × (after.0 ≡ (
            if all (is_handled calls) records
            then ok (length (filter (is_delivered calls) records))
            else raise runtime_error))
  unfolding publish_pending_outbox
  publish_pending_outbox-pending maximum table key =
      let (left, count) = publish_all-Leaves key (list_outbox table event_type maximum) 0 table in
      (left, ground (arith, count))
