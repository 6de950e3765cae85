-- ===== src/Examples/Messages.antt =====
-- A message of a queue that is terminated, where the deletion fails.
use flight_multi_agent.Base.{refl, true, false, [], ◌∷◌, inl}
use flight_multi_agent.Base.Assoc.{lookup}
use flight_multi_agent.SqsMessage.{SqsCalls, SqsSettings, Queue, SqsMessage, terms, call}
use flight_multi_agent.SqsMessage.Settled.{IsSafe, call-IsSafe}

abbrev settings : SqsSettings
settings = record {
  lease_seconds = 90;
  ttl_seconds = 604800;
  retry_delay = 2;
  visibility_timeout = 60;
  has_dead_letters = true;
}

abbrev undeletable : SqsCalls
undeletable = record {
  now = 100;
  completes = true;
  releases = true;
  deletes = false;
  sends = true;
  changes = true;
}

abbrev message : SqsMessage
message = record {
  consumer = "eval";
  event_id = "cand-a";
  receipt = "receipt-1";
  body = "{}";
  settled = false;
}

abbrev queue : Queue
queue = record { claims = []; waiting = ("receipt-1", 60) ∷ []; dead_letters = [] }

call-IsSafe_example :
    let after = (call settings undeletable terms (message, queue)).1 in IsSafe after.0 after.1
unfolding lookup
call-IsSafe_example = call-IsSafe settings undeletable message terms queue refl (inl refl)
