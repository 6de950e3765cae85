-- ===== src/SearchAction/Authorized.antt =====
-- A search is made only for a decision that asks for one, and its record is final.
use mathlib.Core.Path.{subst}
use flight_multi_agent.Base.{
  ◌≡◌, refl, ap, sym, ◌⊎◌, inl, inr, Bool, false, some, [], ◌∷◌, ◌++◌, arith, Option-cases,
  Bool-cases,
}
use flight_multi_agent.Base.Result.{Result, ok, raise, Result-cases, client_error}
use flight_multi_agent.Clock.{IsoFormat}
use flight_multi_agent.Evidence.{Decision, notify_and_search, is_search}
use flight_multi_agent.Observation.{Observation}
use flight_multi_agent.Events.{ConfirmedEvent}
use flight_multi_agent.Offers.{SearchCommand, SearchRecord}
use flight_multi_agent.MonitoringStore.{get_last_observation, get_search, put_search}
use flight_multi_agent.NotificationAction.{is_valid_event, wait_for_commit, verified_decision}
use flight_multi_agent.NotificationAction.Authority.{IsBacked, verified-IsBacked}
use flight_multi_agent.SearchAction.{Outside, World}
use flight_multi_agent.SearchAction.Process.{
  is_found, command_for, searched_record, save, search_with, act, process_search_event,
  failed_record,
}

module _ {F : Type 0} (iso : IsoFormat) (outside : Outside F) (e : ConfirmedEvent) where
  abbrev pub decided : World F → World F
  decided w = record w { store = wait_for_commit e outside.waiting w.store }

  -- The ways that a saved record ends.
  pub save-cases :
      (r : SearchRecord) (w : World F)
      → ((save iso outside e r w ≡ (ok r, record w { store = put_search w.store e.decision_id r })))
        ⊎ (save iso outside e r w ≡ (raise client_error, w))
  unfolding save
  save-cases r w = elim (Bool-cases outside.stores) [
    | inl stores ↦ inl (ground arith)
    | inr loses ↦ inr (ground arith)
  ]

  -- What is known of a command that the search tool is given: the store holds a decision that backs
  -- the event and asks for a search, and the command is made of it and the leg's observation.
  pub record IsSearched (w : World F) (command : SearchCommand) : Type 0 where
    pub decision : Decision F
    pub backed : IsBacked e decision (decided w).store
    pub asks : decision.verdict ≡ notify_and_search
    pub seen : Observation F
    pub is_seen : get_last_observation (decided w).store e.trip_id e.leg_id ≡ some seen
    pub made : command_for iso e decision seen ≡ ok command

  abbrev pub is_finished : Result SearchRecord → Bool
  is_finished (raise error) = false
  is_finished (ok r) = is_found r.status

  -- The tool is given no command, and no search is finished.
  pub record IsQuiet (w : World F) (ended : Result SearchRecord × World F) : Type 0 where
    pub same_searches : ended.1.searched ≡ w.searched
    pub unfinished : is_finished ended.0 ≡ false

  save-IsQuiet :
      (r : SearchRecord) (w : World F)
      → is_found r.status ≡ false
      → IsQuiet w (save iso outside e r (decided w))
  save-IsQuiet r w unfound = elim (save-cases r (decided w)) [
    | inl saved ↦ record { same_searches = ground arith; unfinished = ground arith }
    | inr lost ↦ record { same_searches = ground arith; unfinished = ground arith }
  ]

  -- The tool is given a command, and its record is saved.
  pub record IsSearch (w : World F) (ended : Result SearchRecord × World F) : Type 0 where
    pub command : SearchCommand
    pub searched : IsSearched w command
    pub ends :
        ended
        ≡ save iso outside e
            (searched_record iso outside e command)
            (record (decided w) { searched = w.searched ++ command ∷ [] })

  search_with-cases :
      (d : Decision F) (w : World F)
      → IsBacked e d (decided w).store
      → d.verdict ≡ notify_and_search
      → IsQuiet w (search_with iso outside e d (decided w))
        ⊎ IsSearch w (search_with iso outside e d (decided w))
  unfolding search_with
  search_with-cases d w backed asks =
      let v = decided w in
      elim (Option-cases (get_last_observation v.store e.trip_id e.leg_id)) [
        | inl missing ↦
            let ends : search_with iso outside e d v
                ≡ save iso outside e (failed_record iso outside e "SEARCH_CONTEXT_MISSING") v =
              ground arith in
            inl (
              subst (IsQuiet w) (sym ends)
                (save-IsQuiet (failed_record iso outside e "SEARCH_CONTEXT_MISSING") w refl))
        | inr (o, is_seen) ↦ elim (Result-cases (command_for iso e d o)) [
          | inl (error, unmade) ↦
              let ends : search_with iso outside e d v
                  ≡ save iso outside e (failed_record iso outside e "SEARCH_CONTEXT_INVALID") v =
                ground arith in
              inl (
                subst (IsQuiet w) (sym ends)
                  (save-IsQuiet (failed_record iso outside e "SEARCH_CONTEXT_INVALID") w refl))
          | inr (command, made) ↦ inr (record {
            command = command;
            searched = record {
              decision = d;
              backed = backed;
              asks = asks;
              seen = o;
              is_seen = is_seen;
              made = made;
            };
            ends = ground arith;
          })
        ]
      ]

  pub act-cases : (w : World F) → IsQuiet w (act iso outside e w) ⊎ IsSearch w (act iso outside e w)
  unfolding act
  act-cases w = elim (Option-cases (verified_decision e (decided w).store)) [
    | inl unverified ↦ inl (record { same_searches = ground arith; unfinished = ground arith })
    | inr (d, verified) ↦ elim (Bool-cases (is_search d.verdict)) [
      | inl asks ↦
          let ends : act iso outside e w ≡ search_with iso outside e d (decided w) = ground arith in
          subst (λ a. IsQuiet w a ⊎ IsSearch w a) (sym ends)
            (search_with-cases d w (verified-IsBacked e (decided w).store d verified)
              (ground arith))
      | inr asks_not ↦ inl (record { same_searches = ground arith; unfinished = ground arith })
    ]
  ]

  pub process-act :
      (w : World F)
      → (process_search_event iso outside e w ≡ act iso outside e w)
        ⊎ ((process_search_event iso outside e w).1 ≡ w)
  unfolding process_search_event
  process-act w = elim (Bool-cases (is_valid_event e)) [
    | inr invalid ↦ inr (ground arith)
    | inl valid ↦ elim (Bool-cases (is_search e.verdict)) [
      | inr irrelevant ↦ inr (ground arith)
      | inl asks ↦ elim (Option-cases (get_search w.store e.decision_id)) [
        | inl fresh ↦ inl (ground arith)
        | inr (r, stored) ↦ elim (Bool-cases (is_found r.status)) [
          | inl done ↦ inr (ground arith)
          | inr undone ↦ inl (ground arith)
        ]
      ]
    ]
  ]

  -- Processing an event gives the search tool no command, or one: then the store holds a decision of
  -- the event's candidate that agrees with the event and asks for a search, and the command is made
  -- of that decision and of the leg's last observation.
  pub process-IsSearched :
      (w : World F)
      → let after = process_search_event iso outside e w in
        (after.1.searched ≡ w.searched)
        ⊎ ((command : SearchCommand) × (after.1.searched ≡ w.searched ++ command ∷ [])
            × IsSearched w command)
  process-IsSearched w = elim (process-act w) [
    | inr same ↦ inl (ap (λ v. v.searched) same)
    | inl acted ↦ elim (act-cases w) [
      | inl quiet ↦ let same = quiet.same_searches in inl (ground arith)
      | inr made ↦
          let v : World F = record (decided w) { searched = w.searched ++ made.command ∷ [] } in
          let r = searched_record iso outside e made.command in
          let ends = made.ends in
          elim (save-cases r v) [
            | inl saved ↦ inr (made.command, ground arith, made.searched)
            | inr lost ↦ inr (made.command, ground arith, made.searched)
          ]
    ]
  ]
