-- ===== src/Operations/Redriven.antt =====
-- What a redrive of a dead letter publishes, and that a request publishes at most once.
use mathlib.Core.Path.{subst}
use flight_multi_agent.Base.{
  suc, ◌≤◌, ◌≡◌, ◌⊎◌, inl, inr, refl, sym, ap, ◌∙◌, true, false, none, some, ◌∷◌, length, str_eq,
  arith, Bool-cases, Option-cases, is_some,
}
use flight_multi_agent.Base.Table.{Table, get_item, put_item}
use flight_multi_agent.MonitoringStore.{Item, DeadLetter, redrive, RedriveRequest}
use flight_multi_agent.MonitoringStore.Outbox.DeadLetters.{
  get_dead_letter, claim_redrive, mark_dead_letter_redriven, redrive_key, new_redrive, as_redrive,
}
use flight_multi_agent.Events.{OutboxRecord}
use flight_multi_agent.Operations.{
  RedriveCall, OpsOutside, OpsWorld, require_operator, validate_consumer, record_for_redrive,
  note_failure, finish_publication, publish_redrive, claim_and_publish, redrive_letter,
  redrive_dead_letter, publication,
}
use flight_multi_agent.Operations.Claimed.{
  has_claim, key_of, put_own-has_claim, finish_redrive-has_claim, mark-has_claim,
}

module _ {F : Type 0} where
  module _ (outside : OpsOutside) (command : RedriveRequest) where
    -- The request stays claimed, and nothing more is published.
    abbrev IsKept : OpsWorld F → OpsWorld F → Type 0
    IsKept w next = (has_claim command next.store ≡ true) × (next.published ≡ w.published)

    note_failure-IsKept :
        (w : OpsWorld F)
        → has_claim command w.store ≡ true
        → IsKept w (note_failure outside command w).1
    unfolding note_failure
    note_failure-IsKept w claimed =
        let stored =
          finish_redrive-has_claim command w.store outside.now "failed"
            (some "REDRIVE_PUBLISH_FAILED") in
        elim (Bool-cases outside.notes) [
          | inl noted ↦ rw noted (stored, refl)
          | inr lost ↦ rw lost (claimed, refl)
        ]

    finish_publication-IsKept :
        (w : OpsWorld F)
        → has_claim command w.store ≡ true
        → IsKept w (finish_publication outside command w).1
    unfolding finish_publication note_failure
    finish_publication-IsKept w claimed =
        let mark =
          mark_dead_letter_redriven w.store outside.now command.consumer command.event_id
            command.request_id in
        elim (Bool-cases outside.marks) [
          | inr lost ↦ rw lost (note_failure-IsKept w claimed)
          | inl marks ↦ rw marks (elim (Option-cases mark) [
            | inl missing ↦ rw missing (note_failure-IsKept w claimed)
            | inr (store, marked) ↦
                let kept = mark-has_claim command w.store store outside.now marked claimed in
                let stored = finish_redrive-has_claim command store outside.now "published" none in
                rw marked (elim (Bool-cases outside.finishes) [
                  | inl finishes ↦ rw finishes (stored, refl)
                  | inr lost ↦
                      let (still, same) = note_failure-IsKept (record w { store = store }) kept in
                      rw lost (still, same)
                ])
          ])
        ]

    -- The request is claimed, and at most one more event is published.
    abbrev IsPublished : OpsWorld F → OpsWorld F → Type 0
    IsPublished w next =
        (has_claim command next.store ≡ true) × (length next.published ≤ suc (length w.published))

    publish_redrive-IsPublished :
        (r : OutboxRecord F) (w : OpsWorld F)
        → has_claim command w.store ≡ true
        → IsPublished w (publish_redrive outside command r w).1
    unfolding publish_redrive
    publish_redrive-IsPublished r w claimed =
        let with_event : OpsWorld F = record w {
          published = publication r command ∷ w.published;
        } in
        elim (Bool-cases outside.publishes) [
          | inl published ↦
              let (still, same) = finish_publication-IsKept with_event claimed in
              let ends : finish_publication outside command with_event
                  ≡ publish_redrive outside command r w =
                ground arith in
              let count = ap length same in
              subst (λ p. IsPublished w p.1) ends (still, omega (arith, count))
          | inr lost ↦
              let (still, same) = note_failure-IsKept w claimed in
              let ends : note_failure outside command w ≡ publish_redrive outside command r w =
                ground arith in
              let count = ap length same in
              subst (λ p. IsPublished w p.1) ends (still, omega (arith, count))
        ]

    abbrev IsFirst : OpsWorld F → OpsWorld F → Type 0
    IsFirst w next = (has_claim command w.store ≡ false) × IsPublished w next

    claim_redrive-refused :
        (table : Table (Item F)) (item : Item F)
        → get_item (key_of command) table ≡ some item
        → (claim_redrive table command).0.0 ≡ false
    unfolding claim_redrive
    claim_redrive-refused table item held = elim (Option-cases (as_redrive (some item))) [
      | inl other ↦ ground arith
      | inr (r, claimed) ↦ ground arith
    ]

    claim_redrive-made :
        (table : Table (Item F))
        → get_item (key_of command) table ≡ none
        → ((claim_redrive table command).0.0 ≡ true)
          × ((claim_redrive table command).1
              ≡ put_item (key_of command) (redrive (new_redrive command)) table)
    unfolding claim_redrive
    claim_redrive-made table missing = (ground arith, ground arith)

    claim_and_publish-cases :
        (r : OutboxRecord F) (w : OpsWorld F)
        → ((has_claim command w.store ≡ true) × ((claim_and_publish outside command r w).1 ≡ w))
          ⊎ IsFirst w (claim_and_publish outside command r w).1
    unfolding claim_and_publish
    claim_and_publish-cases r w = elim (Option-cases (get_item (key_of command) w.store)) [
      | inr (item, held) ↦
          let refused = claim_redrive-refused w.store item held in inl (ground arith, ground arith)
      | inl missing ↦
          let (first, stored) = claim_redrive-made w.store missing in
          let made = put_item (key_of command) (redrive (new_redrive command)) w.store in
          let ends : publish_redrive outside command r (record w { store = made })
              ≡ claim_and_publish outside command r w =
            ground arith in
          inr (
            ground arith,
            subst (λ p. IsPublished w p.1) ends
                (publish_redrive-IsPublished r (record w { store = made })
                  (put_own-has_claim command (redrive (new_redrive command)) w.store)),
          )
    ]

  module _ (outside : OpsOutside) (call : RedriveCall) where
    -- The handler leaves everything, or has claimed the request.
    letter-cases :
        (letter : DeadLetter F) (w : OpsWorld F)
        → redrive_letter outside call.command letter w ≡ redrive_dead_letter outside call w
        → ((redrive_dead_letter outside call w).1 ≡ w)
          ⊎ IsFirst outside call.command w (redrive_dead_letter outside call w).1
    unfolding redrive_letter
    letter-cases letter w ends =
        let command = call.command in
        let made =
          record_for_redrive outside.trace_headers command.consumer command.event_id
            letter.payload in
        elim (Bool-cases (str_eq letter.status "active")) [
          | inr done ↦ inl (ground arith)
          | inl waiting ↦ elim (Option-cases made) [
            | inl unsafe ↦ inl (ground arith)
            | inr (r, safe) ↦
                let runs : claim_and_publish outside command r w
                    ≡ redrive_dead_letter outside call w =
                  ground arith in
                elim (claim_and_publish-cases outside command r w) [
                  | inl (claimed, same) ↦ inl (ap (λ p. p.1) (sym runs) ∙ same)
                  | inr published ↦ inr (subst (λ p. IsFirst outside command w p.1) runs published)
                ]
          ]
        ]

    redrive-cases :
        (w : OpsWorld F)
        → ((redrive_dead_letter outside call w).1 ≡ w)
          ⊎ IsFirst outside call.command w (redrive_dead_letter outside call w).1
    unfolding redrive_dead_letter
    redrive-cases w =
        let command = call.command in
        elim (Option-cases (require_operator call.configured call.supplied)) [
          | inr (status, turned_away) ↦ inl (ground arith)
          | inl operator ↦ elim (Option-cases (validate_consumer command.consumer)) [
            | inr (status, unknown) ↦ inl (ground arith)
            | inl known ↦
                elim (Option-cases (get_dead_letter w.store command.consumer command.event_id)) [
                  | inl missing ↦ inl (ground arith)
                  | inr (letter, found) ↦ letter-cases letter w (ground arith)
                ]
          ]
        ]

  -- Two calls for the redrive of the same dead letter with the same request id publish at most one
  -- event between them, whoever makes them and whichever of their other calls fail.
  pub redrive-at_most_once :
      (first again : OpsOutside) (call repeated : RedriveCall) (w : OpsWorld F)
      → redrive_key call.command.consumer call.command.event_id call.command.request_id
        ≡ redrive_key repeated.command.consumer repeated.command.event_id
            repeated.command.request_id
      → length (redrive_dead_letter again repeated (redrive_dead_letter first call w).1).1.published
        ≤ suc (length w.published)
  redrive-at_most_once first again call repeated w same =
      let middle = (redrive_dead_letter first call w).1 in
      let last = (redrive_dead_letter again repeated middle).1 in
      let repeats = redrive-cases again repeated middle in
      elim (redrive-cases first call w) [
        | inl unchanged ↦
            let count : length middle.published ≡ length w.published =
              ap (λ world. length world.published) unchanged in
            elim repeats [
              | inl left ↦
                  let kept = ap (λ world. length world.published) left in omega (arith, kept, count)
              | inr (free, (claimed, few)) ↦ omega (arith, few, count)
            ]
        | inr (free, (claimed, few)) ↦
            let held : has_claim repeated.command middle.store ≡ true =
              subst (λ k. is_some (get_item k middle.store) ≡ true) same claimed in
            elim repeats [
              | inl left ↦
                  let kept = ap (λ world. length world.published) left in omega (arith, kept, few)
              | inr (unclaimed, published) ↦ absurd (ground arith)
            ]
      ]
