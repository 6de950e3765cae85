-- ===== src/Lib.antt =====
-- Travel disruption monitoring: from timestamped flight observations to at most one notification
-- for each worsening of a disruption.
--
-- The program watches the legs of stored trips. A trip is activated with a document, which is
-- stored and parsed once. A scheduler claims the legs that are due; the
-- monitoring agent compares each new observation of a flight with the last one and turns a change
-- into a candidate; the evaluation service applies the suppression policy to the candidate, stores
-- the decision, and publishes a confirmed event for a decision that notifies; action services send
-- the notification and search for other flights; and a webhook records what the provider says of
-- its delivery. Candidates and events travel through an outbox in the monitoring store and a bus
-- that delivers at least once.
-- A replay engine runs the comparison and the policy on a recorded scenario with a virtual clock.
--
-- Files, and the code that they model:
-- - Clock: travel_eval/clock.py. `parse_timestamp`, `format_timestamp`, `VirtualClock`.
-- - Evidence: the dictionaries of candidates and decisions (travel_eval/engine.py, policy.py).
-- - Policy: travel_eval/policy.py. `SuppressionPolicy.severity_band` and `evaluate`, the latter as
--   `rule`, `corroborate` and `deduplicate`, with the history as state.
-- - Observation: the functions of travel_eval/engine.py on observations, `operational_delay`,
--   `changed_fields`, `classify_candidate` and `candidate_score`.
-- - Replay: `ReplayEngine.run` of travel_eval/engine.py, one step for each observation that arrives.
-- - Metrics: travel_eval/metrics.py, on the results of replays.
-- - Events: the records of flight_agent/notification_contracts.py, and the outbox records of
--   flight_agent/event_delivery.py.
-- - MonitoringStore: `DynamoMonitoringStateStore` of flight_agent/monitoring_store.py, as a table
--   from keys to items; MonitoringStore/Outbox has the transactions and the outbox, and
--   its DeadLetters the dead letters and their redrives.
-- - EventDelivery: retry, quarantine and the background publisher of
--   flight_agent/event_delivery.py.
-- - EvalService: `evaluate_candidate`, `commit_evaluation` and the handler of a candidate's message
--   of flight_agent/eval_service.py.
-- - Webhook: `reconcile_twilio_sms_status` of flight_agent/notification_webhook.py, an optimistic
--   update in a loop, with the other callers of the store as steps between its own.
-- - Schedule: `next_poll_time`, and the statements on `trip_legs` of `claim_due_legs`,
--   `complete_poll` and `fail_poll`, of flight_agent/trip_store.py.
-- - Trips: the other tables of flight_agent/trip_store.py. Writes has the transactions that register
--   a trip, Polls those of a claim and of a poll's report, over the legs of Schedule.
-- - DocumentStore: `put_pdf` and `verify` of flight_agent/document_store.py.
-- - Orchestrator: flight_agent/trip_orchestrator.py. Activate has `activate_trip`, Claim,
--   Tick and PollResults have `tick`, and Upload has the endpoints and the check of a mobile number
--   (flight_agent/trip_contracts.py).
-- - Operations: the redrive of a dead letter of flight_agent/operations_service.py; Status has the
--   counts that it reports.
-- - Idempotency: `SqsIdempotencyStore` of flight_agent/event_bus.py, with the operations of all the
--   workers in one sequence, and among them the deletions by the table's TTL, which
--   docs/aws-runtime-boundaries.md asks for.
-- - SqsMessage: the methods of `SqsMessage` of flight_agent/event_bus.py, each of whose calls may
--   fail.
-- - WeatherRisk: `classify_weather_risk` of flight_agent/weather.py.
-- - Wording: the request for the wording of a notification, with its bounds, and the plain wording
--   (flight_agent/disruption_explanation.py, flight_agent/notification_action_service.py).
-- - NotificationAction: flight_agent/notification_action_service.py. Its Process has
--   `process_confirmed_event` and the settlement of an event's message.
-- - Pipeline: the evaluation service and the notification action service on one store.
-- - Monitoring: one poll of `FlightMonitoringFlow` of flight_agent/monitoring_flow.py; Judge has the
--   comparison and the candidate, Poll the publication and the evidence that is kept.
-- - Offers: flight_agent/flight_search_contracts.py, and `rank_feasible_options` of
--   flight_agent/flight_search.py; Filter has the reasons to leave an option out, Ranking the order.
-- - SearchAction: flight_agent/flight_search_action_service.py. Its Process has
--   `process_search_event` and the settlement of an event's message.
-- - Base: what the modules share. Examples: concrete inputs and tests.
--
-- Numbers, texts and time. Instants are microseconds since year 1, as natural numbers, and a sum
-- past the last year of `datetime` raises. The parser and printer of ISO timestamps are a parameter
-- (`IsoFormat`), and so is the arithmetic of floats (`Floats`), over a type `F` of which nothing
-- else is assumed. `dumps`, the text through which a conditional update compares records, is any
-- function. In Schedule the instants of a claim are passed on directly, where the code prints and
-- parses them, and sums of instants do not raise. The dates and the texts of microseconds are
-- `Calendar`.
--
-- Failures. An exception is a value of `Result` or an `Option Error`. Calls that leave the program
-- (the bus, the transaction, the acknowledgement, the reasoner) succeed or fail as parameters say.
-- A call of a store that raises has changed nothing. A transaction of Trips is one step that
-- commits; the orchestrator says which of its calls do.
--
-- Loops. Every loop follows a list, but for the webhook's, whose fuel is the argument
-- `maximum_attempts` of the code: it is enough because the code stops there too.
--
-- Waits. A wait reads the store until it finds a value or its time is over: a list of what other
-- callers do between the readings, whose end is the deadline.
--
-- Not modelled: the agents that call language models, OCR and the parsing of itineraries; the
-- weather, flight status and flight search providers, and those of notifications; the HTTP, MCP and
-- A2A servers and clients; the bus but for its idempotency store and the settlement of a message;
-- telemetry; the user interface. Of the stores, the creation of tables and buckets, calls of libraries;
-- of the orchestrator, its traces and the loop that calls `tick` and sleeps.
pub mod Base
pub mod Clock
pub mod Evidence
pub mod Policy
pub mod Observation
pub mod Replay
pub mod Offers
pub mod Events
pub mod MonitoringStore
pub mod Webhook
pub mod EventDelivery
pub mod EvalService
pub mod Schedule
pub mod Wording
pub mod NotificationAction
pub mod Monitoring
pub mod SearchAction
pub mod Pipeline
pub mod Idempotency
pub mod SqsMessage
pub mod WeatherRisk
pub mod Trips
pub mod DocumentStore
pub mod Orchestrator
pub mod Operations
pub mod Metrics
mod Examples
