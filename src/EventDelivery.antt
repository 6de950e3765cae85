-- ===== src/EventDelivery.antt =====
-- flight_agent/event_delivery.py: the settlement of a message, and the background publisher of the
-- outbox.
--
-- A message is the envelope that its data decodes to, `none` where it does not decode, and its
-- delivery count. A call of the publisher returns or raises, and one that raises changes nothing.
pub mod Publish
pub mod Quarantine
use flight_multi_agent.Base.{
  ℕ, zero, suc, ◌+◌, String, Bool, true, false, Option, none, some, List, [], ◌∷◌, if◌then◌else◌,
  leb, max,
}
use flight_multi_agent.Base.Result.{Result, ok, raise, runtime_error}
use flight_multi_agent.Base.Table.{Table}
use flight_multi_agent.Events.{EventType, OutboxRecord, Payload}
use flight_multi_agent.MonitoringStore.{Item}
use flight_multi_agent.MonitoringStore.Outbox.{
  list_outbox, delete_outbox, note_outbox_failure, put_dead_letter,
}

pub data Settlement : Type 0 where
  acknowledged redelivered terminated : Settlement

-- `DurableEventEnvelope`; its event type is the constructor of its payload.
pub record Envelope (F : Type 0) : Type 0 where
  pub event_id : String
  pub occurred_at : String
  pub payload : Payload F

-- `fallback` is `fallback_event_id`, a hash of the data; `num_delivered` is missing where the
-- message has no metadata.
pub record Message (F : Type 0) : Type 0 where
  pub envelope : Option (Envelope F)
  pub fallback : String
  pub num_delivered : Option ℕ

-- The publisher's calls for a record: whether the bus acknowledges it, and whether its deletion and
-- the note of its failure return.
pub record PublisherCalls (F : Type 0) : Type 0 where
  pub publish : OutboxRecord F → Bool
  pub deletes : OutboxRecord F → Bool
  pub notes : OutboxRecord F → Bool

module _ {F : Type 0} where
  unfoldable pub delivery_attempt : Message F → ℕ
  delivery_attempt message = elim message.num_delivered [ none ↦ 1 | some n ↦ max 1 n ]

  module _ (now : String) (table : Table (Item F)) (consumer : String) (message : Message F)
      (event_id : String) (payload : Option (Payload F)) (error_code : String) where
    unfoldable pub quarantine_message : Settlement × Table (Item F)
    quarantine_message = (
      terminated,
      put_dead_letter table now consumer event_id payload error_code (delivery_attempt message),
    )

    -- `maximum` is EVENT_MAX_DELIVERIES.
    unfoldable pub retry_or_quarantine : ℕ → Settlement × Table (Item F)
    retry_or_quarantine maximum =
        if leb maximum (delivery_attempt message) then quarantine_message else (redelivered, table)

  -- The loop over the records that were listed, with the number of records published so far.
  module _ (calls : PublisherCalls F) (now : String) (event_type : EventType) where
    unfoldable pub publish_record : OutboxRecord F → ℕ → Table (Item F) → Result ℕ × Table (Item F)
    publish_record r published table =
        let failed : Result ℕ × Table (Item F) =
          if calls.notes r
          then (ok published, note_outbox_failure table now event_type r.event_id)
          else (raise runtime_error, table) in
        if calls.publish r
        then (if calls.deletes r
            then (ok (suc published), delete_outbox table event_type r.event_id)
            else failed)
        else failed

    unfoldable pub publish_all :
        List (OutboxRecord F) → ℕ → Table (Item F) → Result ℕ × Table (Item F)
    publish_all [] published table = (ok published, table)
    publish_all (r ∷ records) published table =
        let (step, next) = publish_record r published table in
        elim step [ raise e ↦ (raise e, next) | ok n ↦ publish_all records n next ]

    unfoldable pub publish_pending_outbox : ℕ → Table (Item F) → Result ℕ × Table (Item F)
    publish_pending_outbox maximum table =
        publish_all (list_outbox table event_type maximum) 0 table
