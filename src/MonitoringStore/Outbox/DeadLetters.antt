-- ===== src/MonitoringStore/Outbox/DeadLetters.antt =====
-- The dead letters of the store (flight_agent/monitoring_store.py) and the redrives that an
-- operator asks for.
use flight_multi_agent.Base.{
  ℕ, ◌≡◌, String, Bool, true, false, ◌&&◌, not, Option, none, some, List, [], ◌∷◌, if◌then◌else◌,
  length, str_eq, arith, Option-cases, inl, inr,
}
use flight_multi_agent.Base.Text.{fstring, truthy, remove_prefix}
use flight_multi_agent.Base.Table.{Key, Table, get_item, put_item, get_item-put_item, key_eq_refl}
use flight_multi_agent.MonitoringStore.{
  Item, DeadLetter, dead_letter, RedriveRequest, Redrive, redrive,
}
use flight_multi_agent.MonitoringStore.Outbox.{dead_letter_key, query, by_sort_key}

abbrev pub redrive_key : String → String → String → Key
redrive_key consumer event_id request_id = record {
  pk = fstring ("REDRIVE#" ∷ consumer ∷ "#" ∷ event_id ∷ []);
  sk = fstring ("REQUEST#" ∷ request_id ∷ []);
}

abbrev pub new_redrive : RedriveRequest → Redrive
new_redrive request = record {
  request = some request;
  status = "publishing";
  finished_at = none;
  error_code = none;
}

module _ {F : Type 0} where
  abbrev as_dead_letter : Option (Item F) → Option (DeadLetter F)
  as_dead_letter (some (dead_letter letter)) = some letter
  as_dead_letter _ = none

  abbrev pub as_redrive : Option (Item F) → Option Redrive
  as_redrive (some (redrive r)) = some r
  as_redrive _ = none

  -- The event ids and letters of a page, in order.
  letters : Bool → Table (Item F) → List (String × DeadLetter F)
  letters active_only [] = []
  letters active_only (item ∷ items) =
      let rest = letters active_only items in
      elim (as_dead_letter (some item.1)) [
        | none ↦ rest
        | some letter ↦
            if active_only && not (str_eq letter.status "active")
            then rest
            else (remove_prefix item.0.sk "EVENT#", letter) ∷ rest
      ]

  module _ (table : Table (Item F)) where
    unfoldable pub list_dead_letters : String → Bool → List (String × DeadLetter F)
    unfolding letters query by_sort_key
    list_dead_letters consumer active_only =
        letters active_only (query (fstring ("DEADLETTER#" ∷ consumer ∷ [])) table)

    unfoldable pub dead_letter_count : String → ℕ
    dead_letter_count consumer = length (list_dead_letters consumer true)

    unfoldable pub get_dead_letter : String → String → Option (DeadLetter F)
    get_dead_letter consumer event_id =
        as_dead_letter (get_item (dead_letter_key consumer event_id) table)

    -- Whether the claim was made, and the redrive that stands.
    unfoldable pub claim_redrive : RedriveRequest → (Bool × Redrive) × Table (Item F)
    claim_redrive request =
        let key = redrive_key request.consumer request.event_id request.request_id in
        elim (get_item key table) [
          | none ↦ ((true, new_redrive request), put_item key (redrive (new_redrive request)) table)
          | some item ↦ elim (as_redrive (some item)) [
            | none ↦ ((false, new_redrive request), table)
            | some r ↦ ((false, r), table)
          ]
        ]

    -- The update also creates the item that it does not find.
    unfoldable pub finish_redrive :
        String → String → String → String → String → Option String → Table (Item F)
    finish_redrive now consumer event_id request_id status error_code =
        let key = redrive_key consumer event_id request_id in
        let noted : Option String → Option String =
          λ old. elim error_code [ none ↦ old | some e ↦ if truthy e then some e else old ] in
        put_item key
          (redrive (elim (as_redrive (get_item key table)) [
            | none ↦ record {
              request = none;
              status = status;
              finished_at = some now;
              error_code = noted none;
            }
            | some r ↦ record r {
              status = status;
              finished_at = some now;
              error_code = noted r.error_code;
            }
          ]))
          table

    -- A missing letter is refused.
    unfoldable pub mark_dead_letter_redriven :
        String → String → String → String → Option (Table (Item F))
    mark_dead_letter_redriven now consumer event_id request_id =
        let key = dead_letter_key consumer event_id in
        elim (as_dead_letter (get_item key table)) [
          | none ↦ none
          | some letter ↦ some (
              put_item key
                (dead_letter (record letter {
                  status = "redrive_published";
                  redrive_request_id = some request_id;
                  redriven_at = some now;
                }))
                table)
        ]

  -- After a claim of a redrive, also one that was refused, a claim with the same key, of consumer,
  -- event and request, is refused and leaves the store, whoever asks and whenever.
  pub claim_redrive-again :
      (first again : RedriveRequest) (table : Table (Item F))
      → redrive_key first.consumer first.event_id first.request_id
        ≡ redrive_key again.consumer again.event_id again.request_id
      → let claimed = (claim_redrive table first).1 in
        ((claim_redrive claimed again).0.0 ≡ false) × ((claim_redrive claimed again).1 ≡ claimed)
  unfolding claim_redrive
  claim_redrive-again first again table same =
      let key = redrive_key first.consumer first.event_id first.request_id in
      let put = get_item-put_item key key (redrive (new_redrive first)) table in
      let own = key_eq_refl key in
      elim (Option-cases (get_item key table)) [
        | inl missing ↦ (ground arith, ground arith)
        | inr (item, held) ↦ (ground arith, ground arith)
      ]
