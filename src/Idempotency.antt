-- ===== src/Idempotency.antt =====
-- flight_agent/event_bus.py, `SqsIdempotencyStore`: the claims that keep an event from being
-- handled twice by one consumer.
--
-- An operation is one step; instants are seconds. The read after a refused claim belongs to the
-- step of the claim. The table's TTL on `expires_at`, which docs/aws-runtime-boundaries.md asks for,
-- is a step of the database: it deletes an item whose life is over, or does nothing.
pub mod Claims
use flight_multi_agent.Base.{
  ℕ, ◌+◌, String, Bool, true, false, Option, none, some, List, [], ◌∷◌, ltb, if◌then◌else◌,
}
use flight_multi_agent.Base.Text.{fstring}
use flight_multi_agent.Base.Assoc.{Dict, lookup, insert, erase}

pub data ClaimStatus : Type 0 where
  processing complete : ClaimStatus

pub record ClaimItem : Type 0 where
  pub status : ClaimStatus
  pub lease_expires_at : Option ℕ
  pub expires_at : ℕ

pub data ClaimResult : Type 0 where
  claimed completed busy : ClaimResult

abbrev pub event_key : String → String → String
event_key consumer event_id = fstring (consumer ∷ "#" ∷ event_id ∷ [])

-- The condition of a claim: no item, or a lease that is over.
abbrev is_claimable : ℕ → Option ClaimItem → Bool
is_claimable now none = true
is_claimable now (some item) = elim item.lease_expires_at [
  | none ↦ false
  | some expires ↦ ltb expires now
]

abbrev refusal : Option ClaimItem → ClaimResult
refusal none = busy
refusal (some item) = elim item.status [ ClaimStatus.complete ↦ completed | processing ↦ busy ]

abbrev is_processing : Option ClaimItem → Bool
is_processing none = false
is_processing (some item) = elim item.status [ ClaimStatus.complete ↦ false | processing ↦ true ]

-- The deletion by the TTL of the table, at a time that the database chooses.
unfoldable pub expire : ℕ → String → Dict ClaimItem → Dict ClaimItem
expire now key items =
    let over : Bool = elim (lookup key items) [
      | none ↦ false
      | some item ↦ ltb item.expires_at now
    ] in
    if over then erase key items else items

module _ (lease_seconds ttl_seconds : ℕ) where
  abbrev pub processing_item : ℕ → ClaimItem
  processing_item now = record {
    status = processing;
    lease_expires_at = some (now + lease_seconds);
    expires_at = now + ttl_seconds;
  }

  abbrev pub complete_item : ℕ → ClaimItem
  complete_item now = record {
    status = ClaimStatus.complete;
    lease_expires_at = none;
    expires_at = now + ttl_seconds;
  }

  unfoldable pub claim : ℕ → String → Dict ClaimItem → ClaimResult × Dict ClaimItem
  claim now key items =
      if is_claimable now (lookup key items)
      then (claimed, insert key (processing_item now) items)
      else (refusal (lookup key items), items)

  -- The update also creates the item that it does not find.
  unfoldable pub complete_claim : ℕ → String → Dict ClaimItem → Dict ClaimItem
  complete_claim now key items = insert key (complete_item now) items

  -- A release of another item than one in processing raises, and changes nothing.
  unfoldable pub release : String → Dict ClaimItem → Bool × Dict ClaimItem
  release key items =
      if is_processing (lookup key items) then (true, erase key items) else (false, items)

  -- The operations of all the workers, in the order in which they reach the store, and the deletions
  -- of the database among them.
  pub data Operation : Type 0 where
    claims : ℕ → String → Operation
    completes : ℕ → String → Operation
    releases : String → Operation
    expires : ℕ → String → Operation

  abbrev pub operate : Operation → Dict ClaimItem → Dict ClaimItem
  operate (claims now key) items = (claim now key items).1
  operate (completes now key) items = complete_claim now key items
  operate (releases key) items = (release key items).1
  operate (expires now key) items = expire now key items

  abbrev pub run : List Operation → Dict ClaimItem → Dict ClaimItem
  run [] items = items
  run (operation ∷ operations) items = run operations (operate operation items)
