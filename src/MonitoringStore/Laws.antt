-- ===== src/MonitoringStore/Laws.antt =====
-- What the operations of the outbox do to the payloads that are pending.
use flight_multi_agent.Base.{◌≡◌, String, none, arith, if◌then◌else◌, Bool-cases, inl, inr}
use flight_multi_agent.Base.Table.{
  Key, Table, get_item, key_eq, get_item-put_item, get_item-delete_item, key_eq_same,
}
use flight_multi_agent.Events.{EventType, event_type_text}
use flight_multi_agent.MonitoringStore.{Item, outbox_key, outbox}
use flight_multi_agent.MonitoringStore.Outbox.{
  delete_outbox, note_outbox_failure, pending, as_outbox, after_failure,
}

module _ {F : Type 0} (table : Table (Item F)) (event_type : EventType) (event_id : String)
    (key : Key) where
  abbrev own : Key
  own = outbox_key (event_type_text event_type) event_id

  pub pending-delete_outbox :
      pending (delete_outbox table event_type event_id) key
      ≡ (if key_eq own key then none else pending table key)
  unfolding delete_outbox
  pending-delete_outbox = ground (arith, get_item-delete_item own key table)

  -- Noting a failure keeps the payload.
  pub pending-note_outbox_failure :
      (now : String)
      → pending (note_outbox_failure table now event_type event_id) key ≡ pending table key
  unfolding note_outbox_failure
  pending-note_outbox_failure now =
      let item = outbox (after_failure now (as_outbox (get_item own table))) in
      let got = get_item-put_item own key item table in
      elim (Bool-cases (key_eq own key)) [
        | inl same ↦ let equal = key_eq_same own key same in ground arith
        | inr different ↦ ground arith
      ]
