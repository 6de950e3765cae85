-- ===== src/Operations/Claimed.antt =====
-- The claim of a redrive stays in the store through the steps that follow it.
use mathlib.Core.Path.{subst}
use flight_multi_agent.Base.{
  ◌≡◌, inl, inr, String, Bool, true, Option, some, arith, Bool-cases, Option-cases, is_some,
}
use flight_multi_agent.Base.Table.{
  Key, Table, get_item, put_item, key_eq, get_item-put_item, key_eq_refl,
}
use flight_multi_agent.MonitoringStore.{Item, DeadLetter, dead_letter, RedriveRequest}
use flight_multi_agent.MonitoringStore.Outbox.{dead_letter_key}
use flight_multi_agent.MonitoringStore.Outbox.DeadLetters.{
  get_dead_letter, mark_dead_letter_redriven, finish_redrive, redrive_key,
}

abbrev pub key_of : RedriveRequest → Key
key_of command = redrive_key command.consumer command.event_id command.request_id

module _ {F : Type 0} where
  -- The store has an item of the request.
  abbrev pub has_claim : RedriveRequest → Table (Item F) → Bool
  has_claim command table = is_some (get_item (key_of command) table)

  put-has_claim :
      (command : RedriveRequest) (key : Key) (item : Item F) (table : Table (Item F))
      → has_claim command table ≡ true
      → has_claim command (put_item key item table) ≡ true
  put-has_claim command key item table claimed =
      let got = get_item-put_item key (key_of command) item table in
      elim (Bool-cases (key_eq key (key_of command))) [
        | inl own ↦ ground arith
        | inr apart ↦ ground arith
      ]

  pub put_own-has_claim :
      (command : RedriveRequest) (item : Item F) (table : Table (Item F))
      → has_claim command (put_item (key_of command) item table) ≡ true
  put_own-has_claim command item table =
      let got = get_item-put_item (key_of command) (key_of command) item table in
      let own = key_eq_refl (key_of command) in ground arith

  pub finish_redrive-has_claim :
      (command : RedriveRequest) (table : Table (Item F)) (now status : String)
      (error_code : Option String)
      → has_claim command (
          finish_redrive table now command.consumer command.event_id command.request_id status
            error_code)
        ≡ true
  unfolding finish_redrive
  finish_redrive-has_claim command table now status error_code = put_own-has_claim command _ table

  pub mark-has_claim :
      (command : RedriveRequest) (table next : Table (Item F)) (now : String)
      → mark_dead_letter_redriven table now command.consumer command.event_id command.request_id
        ≡ some next
      → has_claim command table ≡ true
      → has_claim command next ≡ true
  unfolding mark_dead_letter_redriven get_dead_letter
  mark-has_claim command table next now marked claimed =
      elim (Option-cases (get_dead_letter table command.consumer command.event_id)) [
        | inl missing ↦ absurd (ground arith)
        | inr (letter, found) ↦
            let key = dead_letter_key command.consumer command.event_id in
            let noted : DeadLetter F = record letter {
              status = "redrive_published";
              redrive_request_id = some command.request_id;
              redriven_at = some now;
            } in
            let put : put_item key (dead_letter noted) table ≡ next = ground arith in
            subst (λ t. has_claim command t ≡ true) put
              (put-has_claim command key (dead_letter noted) table claimed)
      ]
