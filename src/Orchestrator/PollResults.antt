-- ===== src/Orchestrator/PollResults.antt =====
-- flight_agent/trip_orchestrator.py, `TripOrchestrator.tick`: what is reported of one poll.
use Prim.Native.String.{count}
use flight_multi_agent.Base.{String, Option, none, some, if◌then◌else◌, leb, get_or}
use flight_multi_agent.Base.Json.{
  Json, Fields, no_fields, object, null, json_text, field_of, has_fields, is_true, str,
}
use flight_multi_agent.Base.Result.{Result, ok, raise, ◌>>=◌, value_error, runtime_error}
use flight_multi_agent.Schedule.{ScheduledLeg}
use flight_multi_agent.Trips.{Calendar, AgentOutcome, poll_key}

pub data PollVerdict : Type 0 where
  poll_completed poll_failed : PollVerdict

-- `SchedulerPollResult`
pub record PollResult : Type 0 where
  pub trip_id : String
  pub leg_id : String
  pub poll_key : String
  pub status : PollVerdict
  pub monitoring_status : Option String
  pub category : Option String
  pub verdict : Option String
  pub notification_status : Option String
  pub notification_error_code : Option String
  pub notification_remediation : Option String
  pub search_status : Option String
  pub notification_id : Option String
  pub notification_message : Option String
  pub search_id : Option String
  pub error_code : Option String

-- `dict.get` of a dictionary that may be missing or empty
abbrev pub get_of : String → Option Fields → Option Json
get_of key none = none
get_of key (some fields) = field_of key fields

module _ (repr : Json → String) where
  -- `str(fields.get(key))` of a dictionary that is neither missing nor empty
  abbrev pub text_at : String → Option Fields → Option String
  text_at key none = none
  text_at key (some fields) =
      if has_fields fields then some (str repr (get_or (field_of key fields) null)) else none

  -- The status of an action of the orchestration
  abbrev pub action_text : String → Fields → Result String
  action_text key fields = elim (field_of key fields) [
    | none ↦ ok "not_required"
    | some (object action) ↦
        ok (str repr (get_or (field_of "status" action) (json_text "not_required")))
    | some _ ↦ raise runtime_error
  ]

  -- A field of text: any other value but `None` is refused.
  abbrev pub optional_text : Option Json → Result (Option String)
  optional_text none = ok none
  optional_text (some null) = ok none
  optional_text (some (json_text s)) = ok (some s)
  optional_text (some _) = raise value_error

  -- `submission_failure`, an empty dictionary where it is missing or false
  abbrev pub failure_of : Option Json → Result Fields
  failure_of none = ok no_fields
  failure_of (some (object fields)) = ok fields
  failure_of (some other) = if is_true other then raise runtime_error else ok no_fields

  -- At most 300 characters
  abbrev pub short_message : Option Fields → Result (Option String)
  short_message notification =
      let message = get_or (get_of "friendly_message" notification) null in
      let text = str repr message in
      if is_true message
      then if leb (count text) 300 then ok (some text) else raise value_error
      else ok none

  module _ (calendar : Calendar) (leg : ScheduledLeg) where
    unfoldable pub poll_result : AgentOutcome → Result PollResult
    poll_result outcome = do
      notification_status ← action_text "notification_action" outcome.orchestration
      search_status ← action_text "search_action" outcome.orchestration
      failure ← failure_of (get_of "submission_failure" outcome.notification)
      message ← short_message outcome.notification
      error_code ← optional_text (get_of "error_code" outcome.notification)
      remediation ← optional_text (field_of "remediation" failure)
      ok (record {
        trip_id = leg.trip_id;
        leg_id = leg.leg_id;
        poll_key = poll_key calendar leg;
        status = poll_completed;
        monitoring_status = some outcome.status;
        category = text_at "category" outcome.candidate;
        verdict = text_at "verdict" outcome.decision;
        notification_status = some notification_status;
        notification_error_code = error_code;
        notification_remediation = remediation;
        search_status = some search_status;
        notification_id = text_at "notification_id" outcome.notification;
        notification_message = message;
        search_id = text_at "search_id" outcome.search_record;
        error_code = none;
      })

    abbrev pub failed_result : PollResult
    failed_result = record {
      trip_id = leg.trip_id;
      leg_id = leg.leg_id;
      poll_key = poll_key calendar leg;
      status = poll_failed;
      monitoring_status = none;
      category = none;
      verdict = none;
      notification_status = none;
      notification_error_code = none;
      notification_remediation = none;
      search_status = none;
      notification_id = none;
      notification_message = none;
      search_id = none;
      error_code = some "MONITORING_AGENT_FAILED";
    }
