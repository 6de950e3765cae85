-- ===== src/SearchAction/Process.antt =====
-- flight_agent/flight_search_action_service.py, `process_search_event` and the handling of a
-- message.
use flight_multi_agent.Base.{
  ℕ, ◌*◌, String, Bool, true, false, ◌&&◌, ◌||◌, Option, none, some, List, [], ◌∷◌, ◌++◌, max,
  if◌then◌else◌, str_eq,
}
use flight_multi_agent.Base.Text.{truthy}
use flight_multi_agent.Base.Table.{Table}
use flight_multi_agent.Base.Assoc.{Dict}
use flight_multi_agent.Base.Result.{
  Result, ok, raise, ◌>>=◌, or_raise, value_error, client_error, key_error,
}
use flight_multi_agent.Clock.{IsoFormat, parse_timestamp, format_timestamp, plus, hour}
use flight_multi_agent.Evidence.{Decision, is_search}
use flight_multi_agent.Observation.{Observation}
use flight_multi_agent.Events.{ConfirmedEvent, confirmed_payload}
use flight_multi_agent.Offers.{
  SearchCommand, SearchResult, SearchRecord, SearchStatus, RankedOption, completed, no_options,
  failed, rejected,
}
use flight_multi_agent.Offers.Ranking.{rank_feasible_options}
use flight_multi_agent.MonitoringStore.{Item, get_last_observation, get_search, put_search}
use flight_multi_agent.NotificationAction.{is_valid_event, wait_for_commit, verified_decision}
use flight_multi_agent.EventDelivery.{
  Settlement, acknowledged, Message, Envelope, quarantine_message, retry_or_quarantine,
}
use flight_multi_agent.SearchAction.{
  Outside, World, search_id_of, search_key_of, record_of, is_valid_search,
}

abbrev pub is_found : SearchStatus → Bool
is_found completed = true
is_found no_options = true
is_found _ = false

abbrev status_for : List RankedOption → SearchStatus
status_for [] = no_options
status_for (r ∷ ranked) = completed

unfoldable pub result_matches : SearchCommand → SearchResult → Bool
result_matches command result =
    str_eq result.search_id command.search_id
    && (str_eq result.decision_id command.approval.decision_id
        && str_eq result.idempotency_key command.idempotency_key)

module _ {F : Type 0} (iso : IsoFormat) where
  -- The window is the twelve hours from the scheduled departure, or from the event if that is later.
  unfoldable pub command_for : ConfirmedEvent → Decision F → Observation F → Result SearchCommand
  command_for e d o = do
    scheduled ← parse_timestamp iso o.departure.scheduled_at
    published ← parse_timestamp iso e.published_at
    latest ← plus (max scheduled published) (12 * hour)
    flight_iata ← or_raise o.flight_iata key_error
    origin ← or_raise o.departure_airport key_error
    destination ← or_raise o.destination_airport key_error
    flight_date ← or_raise o.flight_date key_error
    let command : SearchCommand = record {
      search_id = search_id_of e;
      idempotency_key = search_key_of e;
      trip_id = e.trip_id;
      leg_id = e.leg_id;
      original_flight_iata = flight_iata;
      origin = origin;
      destination = destination;
      departure_date = flight_date;
      earliest_departure_at = format_timestamp iso (max scheduled published);
      latest_departure_at = format_timestamp iso latest;
      maximum_stops = 1;
      minimum_connection_minutes = 45;
      approval = record {
        candidate_id = e.candidate_id;
        decision_id = e.decision_id;
        policy_version = d.policy_version;
        reason_codes = e.reason_codes;
        decided_at = d.decided_at;
      };
    }
    if is_valid_search command then ok command else raise value_error

  module _ (outside : Outside F) (e : ConfirmedEvent) where
    abbrev pub failed_record : String → SearchRecord
    failed_record error_code = record_of e failed outside.now (some error_code)

    abbrev found_record : SearchResult → List RankedOption × Dict ℕ → SearchRecord
    found_record result (alternatives, counts) =
        record (record_of e (status_for alternatives) result.searched_at none) {
          provider = some result.provider;
          source_scope = some result.source_scope;
          alternatives = alternatives;
          rejection_summary = counts;
          availability_verified = result.availability_verified;
        }

    -- The record of a command that the search tool was given.
    unfoldable pub searched_record : SearchCommand → SearchRecord
    searched_record command = elim (outside.search_flights command) [
      | none ↦ failed_record "FLIGHT_SEARCH_MCP_FAILED"
      | some result ↦
          if result_matches command result
          then elim (rank_feasible_options iso command result) [
            | raise error ↦ failed_record "FLIGHT_SEARCH_MCP_FAILED"
            | ok answer ↦ found_record result answer
          ]
          else failed_record "FLIGHT_SEARCH_MCP_FAILED"
    ]

    -- The last step, which may raise.
    unfoldable pub save : SearchRecord → World F → Result SearchRecord × World F
    save r w =
        if outside.stores
        then (ok r, record w { store = put_search w.store e.decision_id r })
        else (raise client_error, w)

    unfoldable pub search_with : Decision F → World F → Result SearchRecord × World F
    search_with d w = elim (get_last_observation w.store e.trip_id e.leg_id) [
      | none ↦ save (failed_record "SEARCH_CONTEXT_MISSING") w
      | some o ↦ elim (command_for e d o) [
        | raise error ↦ save (failed_record "SEARCH_CONTEXT_INVALID") w
        | ok command ↦
            save (searched_record command) (record w { searched = w.searched ++ command ∷ [] })
      ]
    ]

    abbrev pub refused : String → SearchRecord
    refused error_code = record_of e rejected outside.now (some error_code)

    -- An event without a finished search.
    unfoldable pub act : World F → Result SearchRecord × World F
    act before =
        let w : World F = record before {
          store = wait_for_commit e outside.waiting before.store;
        } in
        elim (verified_decision e w.store) [
          | none ↦ (ok (refused "EVAL_AUTHORITY_MISMATCH"), w)
          | some d ↦
              if is_search d.verdict
              then search_with d w
              else (ok (refused "EVAL_AUTHORITY_MISMATCH"), w)
        ]

    unfoldable pub process_search_event : World F → Result SearchRecord × World F
    process_search_event w =
        if is_valid_event e
        then if is_search e.verdict
          then elim (get_search w.store e.decision_id) [
            | none ↦ act w
            | some existing ↦ if is_found existing.status then (ok existing, w) else act w
          ]
          else (ok (refused "SEARCH_NOT_AUTHORIZED"), w)
        else (raise value_error, w)

  module _ (outside : Outside F) (acks : Bool) (maximum : ℕ) (message : Message F) where
    abbrev consumer : String
    consumer = "travel-flight-search-action-v1"

    settled : World F → Settlement × Table (Item F) → Settlement × World F
    settled w (settlement, table) = (settlement, record w { store = table })

    abbrev error_or : Option String → String → String
    error_or none default = default
    error_or (some text) default = if truthy text then text else default

    abbrev is_rejected : SearchStatus → Bool
    is_rejected rejected = true
    is_rejected _ = false

    abbrev is_irrelevant : SearchRecord → Bool
    is_irrelevant r =
        is_rejected r.status && str_eq (error_or r.error_code "") "SEARCH_NOT_AUTHORIZED"

    module _ (envelope : Envelope F) where
      retry : World F → String → Settlement × World F
      unfolding settled
      retry w error_code = settled w (
          retry_or_quarantine outside.now w.store consumer message envelope.event_id
            (some envelope.payload) error_code maximum)

      unfoldable pub settle : Result SearchRecord × World F → Settlement × World F
      unfolding retry settled
      settle (raise error, w) = retry w "SEARCH_ACTION_FAILED"
      settle (ok r, w) =
          if is_found r.status || is_irrelevant r
          then if acks then (acknowledged, w) else retry w "SEARCH_ACTION_FAILED"
          else if is_rejected r.status
          then settled w (
              quarantine_message outside.now w.store consumer message envelope.event_id
                (some envelope.payload) (error_or r.error_code "SEARCH_EVENT_REJECTED"))
          else retry w (error_or r.error_code "SEARCH_ACTION_FAILED")

    unfoldable pub invalid : World F → Settlement × World F
    unfolding settled
    invalid w = settled w (
        quarantine_message outside.now w.store consumer message message.fallback none
          "CONFIRMED_EVENT_INVALID")

    -- An envelope of another type is refused as one that does not decode.
    unfoldable pub process_confirmed_message : World F → Settlement × World F
    process_confirmed_message w = elim message.envelope [
      | none ↦ invalid w
      | some envelope ↦ elim envelope.payload [
        | confirmed_payload e ↦ settle envelope (process_search_event outside e w)
        | _ ↦ invalid w
      ]
    ]
