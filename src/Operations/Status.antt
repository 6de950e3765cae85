-- ===== src/Operations/Status.antt =====
-- flight_agent/operations_service.py: the counts of the outbox, the dead letters and the consumers,
-- as the status, the list of dead letters and the metrics report them.
--
-- `consumer_info` is the pending and the unacknowledged messages of a consumer, `none` where the
-- stream does not answer; `show` is Python's text of a number.
use Prim.Native.String.{compare as compare_text}
use Prim.Native.Nat.{Ordering}
use flight_multi_agent.Base.{ℕ, String, true, Option, none, some, List, [], ◌∷◌, ◌++◌, map, length}
use flight_multi_agent.Base.Text.{fstring}
use flight_multi_agent.Base.Assoc.{Dict}
use flight_multi_agent.Base.Result.{Answer, refused, answered}
use flight_multi_agent.Base.Table.{Table}
use flight_multi_agent.Events.{disruption_candidate, disruption_confirmed, event_type_text}
use flight_multi_agent.MonitoringStore.{Item, DeadLetter}
use flight_multi_agent.MonitoringStore.Outbox.{outbox_count}
use flight_multi_agent.MonitoringStore.Outbox.DeadLetters.{list_dead_letters, dead_letter_count}
use flight_multi_agent.Operations.{known_consumers, require_operator, validate_consumer}

pub record ConsumerState : Type 0 where
  pub pending : ℕ
  pub ack_pending : ℕ

pub record OperationalState : Type 0 where
  pub outboxes : Dict ℕ
  pub dead_letters : Dict ℕ
  pub consumers : Dict (Option ConsumerState)

pub record DeadLetterPage (F : Type 0) : Type 0 where
  pub consumer : String
  pub total : ℕ
  pub events : List (String × DeadLetter F)

module _ {F : Type 0} (consumer_info : String → Option ConsumerState) (table : Table (Item F)) where
  unfoldable pub operational_state : OperationalState
  operational_state = record {
    outboxes =
        map (λ e. (event_type_text e, outbox_count table e))
          (disruption_candidate ∷ disruption_confirmed ∷ []);
    dead_letters = map (λ c. (c, dead_letter_count table c)) known_consumers;
    consumers = map (λ c. (c, consumer_info c)) known_consumers;
  }

  unfoldable pub operations_status : String → String → Answer OperationalState
  operations_status configured supplied = elim (require_operator configured supplied) [
    | some status ↦ refused status
    | none ↦ answered operational_state
  ]

module _ {F : Type 0} (table : Table (Item F)) where
  unfoldable pub dead_letter_page : String → String → String → Answer (DeadLetterPage F)
  dead_letter_page configured supplied consumer =
      let records = list_dead_letters table consumer true in
      elim (require_operator configured supplied) [
        | some status ↦ refused status
        | none ↦ elim (validate_consumer consumer) [
          | some status ↦ refused status
          | none ↦
              answered (record { consumer = consumer; total = length records; events = records })
        ]
      ]

-- `sorted` of the items of a dictionary, whose keys differ
abbrev by_key : {A : Type 0} → String × A → Dict A → Dict A
by_key item [] = item ∷ []
by_key item (first ∷ items) =
    let later = first ∷ by_key item items in
    elim (compare_text item.0 first.0) [ Ordering.gt ↦ later | _ ↦ item ∷ first ∷ items ]

abbrev sorted_items : {A : Type 0} → Dict A → Dict A
sorted_items [] = []
sorted_items (item ∷ items) = by_key item (sorted_items items)

-- `"\\n".join(lines) + "\\n"`
abbrev join_lines : List String → String
join_lines [] = ""
join_lines (line ∷ lines) = fstring (line ∷ "\n" ∷ join_lines lines ∷ [])

module _ (show : ℕ → String) where
  -- One line of a gauge
  abbrev gauge : String → String → String → ℕ → String
  gauge name label key count = fstring (name ∷ "{" ∷ label ∷ "=\"" ∷ key ∷ "\"} " ∷ show count ∷ [])

  abbrev consumer_lines : Dict (Option ConsumerState) → List String
  consumer_lines [] = []
  consumer_lines (item ∷ items) =
      let rest = consumer_lines items in
      elim item.1 [
        | none ↦ rest
        | some info ↦
            gauge "travel_jetstream_consumer_pending" "consumer" item.0 info.pending
            ∷ gauge "travel_jetstream_consumer_ack_pending" "consumer" item.0 info.ack_pending
            ∷ rest
      ]

  unfoldable pub metric_lines : OperationalState → String
  metric_lines state = join_lines (
      ("# HELP travel_outbox_pending Pending transactional outbox records."
        ∷ "# TYPE travel_outbox_pending gauge"
        ∷ map (λ i. gauge "travel_outbox_pending" "event_type" i.0 i.1)
            (sorted_items state.outboxes))
      ++ ("# HELP travel_dead_letters_active Active quarantined events."
          ∷ "# TYPE travel_dead_letters_active gauge"
          ∷ map (λ i. gauge "travel_dead_letters_active" "consumer" i.0 i.1)
              (sorted_items state.dead_letters))
      ++ ("# HELP travel_jetstream_consumer_pending Messages awaiting delivery."
          ∷ "# TYPE travel_jetstream_consumer_pending gauge"
          ∷ "# HELP travel_jetstream_consumer_ack_pending Delivered messages awaiting ACK."
          ∷ "# TYPE travel_jetstream_consumer_ack_pending gauge"
          ∷ consumer_lines (sorted_items state.consumers)))
