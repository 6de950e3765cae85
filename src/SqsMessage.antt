-- ===== src/SqsMessage.antt =====
-- flight_agent/event_bus.py, `SqsMessage`: how a message of a queue is settled.
--
-- The state is that of the idempotency store, the queue and its dead letters; a message has
-- besides whether it is settled. Each call of the queue or of the store may fail, as `SqsCalls`
-- says, and then the method raises with what was done before it. The visibility is changed of a
-- message that is still in the queue.
pub mod Settled
use flight_multi_agent.Base.{
  ℕ, String, Bool, true, false, not, ◌&&◌, Option, none, some, List, [], ◌∷◌, ◌++◌, if◌then◌else◌,
  get_or, ◌==◌,
}
use flight_multi_agent.Base.Assoc.{Dict, insert, erase}
use flight_multi_agent.Base.Result.{Result, ok, raise, client_error}
use flight_multi_agent.Idempotency.{ClaimItem, event_key, complete_claim, release}

pub record SqsCalls : Type 0 where
  pub now : ℕ
  pub completes : Bool
  pub releases : Bool
  pub deletes : Bool
  pub sends : Bool
  pub changes : Bool

-- The messages of a queue, by their receipts, with the seconds that each is hidden for; and the
-- bodies that were sent to the dead letters.
pub record Queue : Type 0 where
  pub claims : Dict ClaimItem
  pub waiting : Dict ℕ
  pub dead_letters : List String

pub record SqsMessage : Type 0 where
  pub consumer : String
  pub event_id : String
  pub receipt : String
  pub body : String
  pub settled : Bool

abbrev pub claim_key : SqsMessage → String
claim_key m = event_key m.consumer m.event_id

abbrev pub State : Type 0
State = SqsMessage × Queue

abbrev pub settle_message : SqsMessage → SqsMessage
settle_message m = record m { settled = true }

-- The settings of the bus; a consumer may have no queue of dead letters.
pub record SqsSettings : Type 0 where
  pub lease_seconds : ℕ
  pub ttl_seconds : ℕ
  pub retry_delay : ℕ
  pub visibility_timeout : ℕ
  pub has_dead_letters : Bool

module _ (settings : SqsSettings) (calls : SqsCalls) where
  -- The steps of a method: whether each returns, with what it leaves.
  unfoldable pub delete_message : SqsMessage → Queue → Bool × Queue
  delete_message m q =
      (calls.deletes, if calls.deletes then record q { waiting = erase m.receipt q.waiting } else q)

  -- The release of a claim that is not in processing fails.
  unfoldable pub release_claim : SqsMessage → Queue → Bool × Queue
  release_claim m q =
      let released = release settings.lease_seconds settings.ttl_seconds (claim_key m) q.claims in
      (calls.releases && released.0, if calls.releases then record q { claims = released.1 } else q)

  unfoldable pub complete_message : SqsMessage → Queue → Bool × Queue
  complete_message m q =
      let claims =
        complete_claim settings.lease_seconds settings.ttl_seconds calls.now (claim_key m)
          q.claims in
      (calls.completes, if calls.completes then record q { claims = claims } else q)

  -- No seconds, given as `none` or 0, stand for the timeout of the bus.
  abbrev pub seconds_or_timeout : Option ℕ → ℕ
  seconds_or_timeout none = settings.visibility_timeout
  seconds_or_timeout (some seconds) = if seconds == 0 then settings.visibility_timeout else seconds

  unfoldable pub change_visibility : Option ℕ → SqsMessage → Queue → Bool × Queue
  change_visibility seconds m q = (
    calls.changes,
    if calls.changes
        then record q { waiting = insert m.receipt (seconds_or_timeout seconds) q.waiting }
        else q,
  )

  unfoldable pub send_dead_letter : SqsMessage → Queue → Bool × Queue
  send_dead_letter m q =
      if settings.has_dead_letters
      then (
        calls.sends,
        if calls.sends then record q { dead_letters = q.dead_letters ++ m.body ∷ [] } else q,
      )
      else (true, q)

  -- A step after another, which is not taken where that one raises.
  unfoldable pub and_then : (Queue → Bool × Queue) → Bool × Queue → Bool × Queue
  and_then step (true, q) = step q
  and_then step (false, q) = (false, q)

  -- The last step of a method settles the message.
  abbrev pub settling : SqsMessage → Bool × Queue → Bool × State
  settling m (true, q) = (true, (settle_message m, q))
  settling m (false, q) = (false, (m, q))

  unfoldable pub ack_sync : State → Bool × State
  ack_sync (m, q) =
      let done = settling m (and_then (delete_message m) (complete_message m q)) in
      if m.settled then (true, (m, q)) else done

  unfoldable pub nak : Option ℕ → State → Bool × State
  nak delay (m, q) =
      let done = settling m (
        and_then (change_visibility (some (get_or delay settings.retry_delay)) m)
          (release_claim m q)) in
      if m.settled then (true, (m, q)) else done

  unfoldable pub term : State → Bool × State
  term (m, q) =
      let done =
        settling m
          (and_then (delete_message m) (and_then (release_claim m) (send_dead_letter m q))) in
      if m.settled then (true, (m, q)) else done

  unfoldable pub extend_visibility : Option ℕ → State → Bool × State
  extend_visibility seconds (m, q) =
      let changed = change_visibility seconds m q in
      if m.settled then (true, (m, q)) else (changed.0, (m, changed.1))

  -- The methods of a message.
  pub data Method : Type 0 where
    acks : Method
    naks : Option ℕ → Method
    terms : Method
    extends : Option ℕ → Method

  abbrev pub call : Method → State → Bool × State
  call acks state = ack_sync state
  call (naks delay) state = nak delay state
  call terms state = term state
  call (extends seconds) state = extend_visibility seconds state
