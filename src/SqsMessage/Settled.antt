-- ===== src/SqsMessage/Settled.antt =====
-- What the methods of a message leave, whichever of their calls fails.
use flight_multi_agent.Base.{
  ℕ, ◌≡◌, ◌⊎◌, refl, Bool, true, false, Option, some, [], ◌∷◌, arith, inl, inr, Bool-cases, is_some,
  eq_iff, get_or, sym, if◌then◌else◌,
}
use mathlib.Core.List.{Memᴰ}
use mathlib.Core.List.Memᴰ
use mathlib.Core.Path.{subst}
use flight_multi_agent.Base.Assoc.{lookup, lookup-insert}
use flight_multi_agent.Idempotency.{complete_item}
use flight_multi_agent.Idempotency.Claims.{
  IsFinished, complete_claim-IsFinished, complete_claim-lookup, release-IsFinished,
}
use flight_multi_agent.SqsMessage.{
  SqsCalls, SqsSettings, Queue, SqsMessage, State, claim_key, delete_message, release_claim,
  complete_message, change_visibility, seconds_or_timeout, send_dead_letter, and_then, ack_sync,
  nak, term, extend_visibility, Method, acks, naks, terms, extends, call, settling,
}

-- The message is in the queue, or its event is complete, or its body is among the dead letters.
abbrev pub IsSafe : SqsMessage → Queue → Type 0
IsSafe m q =
    (is_some (lookup m.receipt q.waiting) ≡ true)
    ⊎ IsFinished q.claims (claim_key m)
    ⊎ Memᴰ m.body q.dead_letters

module _ (settings : SqsSettings) (calls : SqsCalls) (m : SqsMessage) where
  complete_message-IsSafe :
      (q : Queue) → IsSafe m q → IsSafe m (complete_message settings calls m q).1
  unfolding complete_message
  complete_message-IsSafe q safe = elim (Bool-cases calls.completes) [
    | inr fails ↦ rw fails safe
    | inl completes ↦ rw completes (elim safe [
      | inl waits ↦ inl waits
      | inr (inl done) ↦ inr (
          inl (
            complete_claim-IsFinished settings.lease_seconds settings.ttl_seconds (claim_key m)
              calls.now (claim_key m) q.claims done))
      | inr (inr dead) ↦ inr (inr dead)
    ])
  ]

  complete_message-done :
      (q : Queue)
      → (complete_message settings calls m q).0 ≡ true
      → IsFinished (complete_message settings calls m q).1.claims (claim_key m)
  unfolding complete_message
  complete_message-done q returned =
      let own =
        complete_claim-lookup settings.lease_seconds settings.ttl_seconds (claim_key m) calls.now
          q.claims in
      rw returned
        (complete_item settings.lease_seconds settings.ttl_seconds calls.now, own, refl, refl)

  delete_message-IsSafe :
      (q : Queue)
      → IsFinished q.claims (claim_key m) ⊎ Memᴰ m.body q.dead_letters
      → IsSafe m (delete_message settings calls m q).1
  unfolding delete_message
  delete_message-IsSafe q ended = elim (Bool-cases calls.deletes) [
    | inl deletes ↦ rw deletes (inr ended)
    | inr fails ↦ rw fails (inr ended)
  ]

  release_claim-IsSafe : (q : Queue) → IsSafe m q → IsSafe m (release_claim settings calls m q).1
  unfolding release_claim
  release_claim-IsSafe q safe = elim (Bool-cases calls.releases) [
    | inr fails ↦ rw fails safe
    | inl releases ↦ rw releases (elim safe [
      | inl waits ↦ inl waits
      | inr (inl done) ↦ inr (
          inl (
            release-IsFinished settings.lease_seconds settings.ttl_seconds (claim_key m)
              (claim_key m) q.claims done))
      | inr (inr dead) ↦ inr (inr dead)
    ])
  ]

  release_claim-dead_letters :
      (q : Queue) → (release_claim settings calls m q).1.dead_letters ≡ q.dead_letters
  unfolding release_claim
  release_claim-dead_letters q = ground arith

  change_visibility-IsSafe :
      (seconds : Option ℕ) (q : Queue)
      → IsSafe m q
      → IsSafe m (change_visibility settings calls seconds m q).1
  unfolding change_visibility
  change_visibility-IsSafe seconds q safe = elim (Bool-cases calls.changes) [
    | inr fails ↦ rw fails safe
    | inl changes ↦ rw changes (elim safe [
      | inl waits ↦
          let put =
            lookup-insert m.receipt m.receipt (seconds_or_timeout settings calls seconds)
              q.waiting in
          let own = eq_iff m.receipt m.receipt in inl (ground arith)
      | inr ended ↦ inr ended
    ])
  ]

  send_dead_letter-IsSafe :
      (q : Queue) → IsSafe m q → IsSafe m (send_dead_letter settings calls m q).1
  unfolding send_dead_letter
  send_dead_letter-IsSafe q safe = elim (Bool-cases settings.has_dead_letters) [
    | inr none_there ↦ rw none_there safe
    | inl there ↦ elim (Bool-cases calls.sends) [
      | inr fails ↦ rw (there, fails) safe
      | inl sends ↦
          rw (there, sends)
            (elim safe [
              | inl waits ↦ inl waits
              | inr (inl done) ↦ inr (inl done)
              | inr (inr dead) ↦ inr (inr (Memᴰ.append_left (m.body ∷ []) dead))
            ])
    ]
  ]

  send_dead_letter-sent :
      (q : Queue)
      → settings.has_dead_letters ≡ true
      → (send_dead_letter settings calls m q).0 ≡ true
      → Memᴰ m.body (send_dead_letter settings calls m q).1.dead_letters
  unfolding send_dead_letter
  send_dead_letter-sent q there returned =
      let sends : calls.sends ≡ true = ground arith in
      rw (there, sends) (Memᴰ.append_right q.dead_letters (Memᴰ.head refl))

  settling-IsSafe :
      (r : Bool × Queue)
      → IsSafe m r.1
      → IsSafe (settling settings calls m r).1.0 (settling settings calls m r).1.1
  settling-IsSafe (true, q) safe = safe
  settling-IsSafe (false, q) safe = safe

  -- The deletion after a step is safe where the step that returns leaves the message ended.
  deleting-IsSafe :
      (r : Bool × Queue)
      → IsSafe m r.1
      → (r.0 ≡ false) ⊎ (IsFinished r.1.claims (claim_key m) ⊎ Memᴰ m.body r.1.dead_letters)
      → IsSafe m (and_then settings calls (delete_message settings calls m) r).1
  unfolding and_then
  deleting-IsSafe (false, q) safe ended = safe
  deleting-IsSafe (true, q) safe (inl never) = absurd (ground arith)
  deleting-IsSafe (true, q) safe (inr ended) = delete_message-IsSafe q ended

  complete_message-IsEnded :
      (q : Queue)
      → let r = complete_message settings calls m q in
        (r.0 ≡ false) ⊎ (IsFinished r.1.claims (claim_key m) ⊎ Memᴰ m.body r.1.dead_letters)
  complete_message-IsEnded q = elim (Bool-cases (complete_message settings calls m q).0) [
    | inl done ↦ inr (inl (complete_message-done q done))
    | inr fails ↦ inl fails
  ]

  releasing-IsEnded :
      (r : Bool × Queue)
      → (r.0 ≡ false) ⊎ Memᴰ m.body r.1.dead_letters
      → let s = and_then settings calls (release_claim settings calls m) r in
        (s.0 ≡ false) ⊎ (IsFinished s.1.claims (claim_key m) ⊎ Memᴰ m.body s.1.dead_letters)
  unfolding and_then
  releasing-IsEnded (false, q) dead = inl refl
  releasing-IsEnded (true, q) (inl never) = absurd (ground arith)
  releasing-IsEnded (true, q) (inr dead) =
      inr (inr (subst (Memᴰ m.body) (sym (release_claim-dead_letters q)) dead))

  releasing-IsSafe :
      (r : Bool × Queue)
      → IsSafe m r.1
      → IsSafe m (and_then settings calls (release_claim settings calls m) r).1
  unfolding and_then
  releasing-IsSafe (false, q) safe = safe
  releasing-IsSafe (true, q) safe = release_claim-IsSafe q safe

  hiding-IsSafe :
      (seconds : Option ℕ) (r : Bool × Queue)
      → IsSafe m r.1
      → IsSafe m (and_then settings calls (change_visibility settings calls seconds m) r).1
  unfolding and_then
  hiding-IsSafe seconds (false, q) safe = safe
  hiding-IsSafe seconds (true, q) safe = change_visibility-IsSafe seconds q safe

  sent-IsEnded :
      (q : Queue)
      → settings.has_dead_letters ≡ true
      → ((send_dead_letter settings calls m q).0 ≡ false)
        ⊎ Memᴰ m.body (send_dead_letter settings calls m q).1.dead_letters
  sent-IsEnded q there = elim (Bool-cases (send_dead_letter settings calls m q).0) [
    | inl done ↦ inr (send_dead_letter-sent q there done)
    | inr fails ↦ inl fails
  ]

  unless_settled-IsSafe :
      (q : Queue) (done : Bool × State)
      → IsSafe m q
      → IsSafe done.1.0 done.1.1
      → let r = if m.settled then (true, (m, q)) else done in IsSafe r.1.0 r.1.1
  unless_settled-IsSafe q done safe safe_done = elim (Bool-cases m.settled) [
    | inl settled ↦ rw settled safe
    | inr unsettled ↦ rw unsettled safe_done
  ]

  -- No message is lost: where the consumer has a queue of dead letters, each method of a message,
  -- whichever of its calls fails, leaves it in the queue, or its event complete, or its body among
  -- the dead letters.
  pub call-IsSafe :
      (method : Method settings calls) (q : Queue)
      → settings.has_dead_letters ≡ true
      → IsSafe m q
      → let after = (call settings calls method (m, q)).1 in IsSafe after.0 after.1
  unfolding ack_sync nak term extend_visibility
  call-IsSafe acks q there safe = unless_settled-IsSafe q _ safe (
      settling-IsSafe _ (
        deleting-IsSafe (complete_message settings calls m q) (complete_message-IsSafe q safe)
          (complete_message-IsEnded q)))
  call-IsSafe (naks delay) q there safe = unless_settled-IsSafe q _ safe (
      settling-IsSafe _ (
        hiding-IsSafe (some (get_or delay settings.retry_delay)) (release_claim settings calls m q)
          (release_claim-IsSafe q safe)))
  call-IsSafe terms q there safe =
      let sent = send_dead_letter settings calls m q in
      unless_settled-IsSafe q _ safe (
        settling-IsSafe _ (
          deleting-IsSafe (and_then settings calls (release_claim settings calls m) sent)
            (releasing-IsSafe sent (send_dead_letter-IsSafe q safe))
            (releasing-IsEnded sent (sent-IsEnded q there))))
  call-IsSafe (extends seconds) q there safe =
      let changed = change_visibility settings calls seconds m q in
      unless_settled-IsSafe q (changed.0, (m, changed.1)) safe
        (change_visibility-IsSafe seconds q safe)
