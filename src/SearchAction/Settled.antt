-- ===== src/SearchAction/Settled.antt =====
-- The record of a search: it is stored, it is final, and its options are feasible.
use mathlib.Core.Path.{subst}
use flight_multi_agent.Base.{
  ℕ, ◌≡◌, ap, ◌∙◌, inl, inr, String, true, none, some, [], ◌∷◌, ◌++◌, arith, Option-cases,
  Bool-cases, All,
}
use flight_multi_agent.Base.Result.{ok, Result-cases}
use flight_multi_agent.Base.Table.{Table, get_item-put_item, key_eq_refl}
use flight_multi_agent.Clock.{IsoFormat, parse_timestamp}
use flight_multi_agent.Evidence.{is_search}
use flight_multi_agent.Events.{ConfirmedEvent}
use flight_multi_agent.Offers.{SearchCommand, SearchResult, SearchRecord}
use flight_multi_agent.Offers.Ranking.{rank_feasible_options}
use flight_multi_agent.Offers.Feasible.{IsKept}
use flight_multi_agent.Offers.Ranked.{rank-IsFeasible}
use flight_multi_agent.MonitoringStore.{Item, search_key, flight_search, get_search, put_search}
use flight_multi_agent.NotificationAction.{is_valid_event}
use flight_multi_agent.SearchAction.{Outside, World}
use flight_multi_agent.SearchAction.Authorized.{
  IsSearched, act-cases, process-act, save-cases, decided,
}
use flight_multi_agent.SearchAction.Process.{
  is_found, result_matches, searched_record, act, process_search_event,
}

module _ {F : Type 0} (iso : IsoFormat) (outside : Outside F) (e : ConfirmedEvent) where
  get-put_search :
      (table : Table (Item F)) (id : String) (r : SearchRecord)
      → get_search (put_search table id r) id ≡ some r
  unfolding get_search put_search
  get-put_search table id r =
      let key = search_key id in
      let put = get_item-put_item key key (flight_search r) table in ground (arith, key_eq_refl key)

  act-Stores :
      (w : World F) (r : SearchRecord)
      → (act iso outside e w).0 ≡ ok r
      → is_found r.status ≡ true
      → get_search (act iso outside e w).1.store e.decision_id ≡ some r
  act-Stores w r returned found = elim (act-cases iso outside e w) [
    | inl quiet ↦ let unfinished = quiet.unfinished in absurd (ground arith)
    | inr made ↦
        let v : World F = record (decided iso outside e w) {
          searched = w.searched ++ made.command ∷ [];
        } in
        let last = searched_record iso outside e made.command in
        let ends = made.ends in
        let put = get-put_search v.store e.decision_id last in
        elim (save-cases iso outside e last v) [
          | inl saved ↦ ground arith
          | inr lost ↦ absurd (ground arith)
        ]
  ]

  process-again :
      (w : World F) (r : SearchRecord)
      → is_valid_event e ≡ true
      → is_search e.verdict ≡ true
      → get_search w.store e.decision_id ≡ some r
      → is_found r.status ≡ true
      → process_search_event iso outside e w ≡ (ok r, w)
  unfolding process_search_event
  process-again w r valid asks stored found = ground arith

  -- An event whose search has ended with a record, completed or without options, is not searched
  -- for again: processing it once more returns the same record and changes nothing.
  pub process_search-once :
      (w : World F) (r : SearchRecord)
      → (process_search_event iso outside e w).0 ≡ ok r
      → is_found r.status ≡ true
      → let after = (process_search_event iso outside e w).1 in
        process_search_event iso outside e after ≡ (ok r, after)
  unfolding process_search_event
  process_search-once w r returned found = elim (Bool-cases (is_valid_event e)) [
    | inr invalid ↦ absurd (ground arith)
    | inl valid ↦ elim (Bool-cases (is_search e.verdict)) [
      | inr irrelevant ↦ absurd (ground arith)
      | inl asks ↦ elim (process-act iso outside e w) [
        | inr same ↦
            ap (process_search_event iso outside e) same
            ∙ ap (λ a. (a, (process_search_event iso outside e w).1)) returned
        | inl acted ↦
            process-again (process_search_event iso outside e w).1 r valid asks
              (let stored = act-Stores w r in ground arith) found
      ]
    ]
  ]

  searched_record-found :
      (command : SearchCommand)
      → is_found (searched_record iso outside e command).status ≡ true
      → (result : SearchResult) × (outside.search_flights command ≡ some result)
        × (rank_feasible_options iso command result
            ≡ ok (
              (searched_record iso outside e command).alternatives,
              (searched_record iso outside e command).rejection_summary,
            ))
  unfolding searched_record
  searched_record-found command found = elim (Option-cases (outside.search_flights command)) [
    | inl failed ↦ absurd (ground arith)
    | inr (result, answered) ↦ elim (Bool-cases (result_matches command result)) [
      | inr mismatched ↦ absurd (ground arith)
      | inl matches ↦ elim (Result-cases (rank_feasible_options iso command result)) [
        | inl (error, raised) ↦ absurd (ground arith)
        | inr (answer, ranked) ↦ (result, answered, ground arith)
      ]
    ]
  ]

  process-fresh :
      (w : World F) (r : SearchRecord)
      → get_search w.store e.decision_id ≡ none
      → (process_search_event iso outside e w).0 ≡ ok r
      → is_found r.status ≡ true
      → process_search_event iso outside e w ≡ act iso outside e w
  unfolding process_search_event
  process-fresh w r fresh returned found = elim (Bool-cases (is_valid_event e)) [
    | inr invalid ↦ absurd (ground arith)
    | inl valid ↦ elim (Bool-cases (is_search e.verdict)) [
      | inr irrelevant ↦ absurd (ground arith)
      | inl asks ↦ ground arith
    ]
  ]

  -- The search of an event that has none yet, and ends with a record, completed or without options:
  -- the record's alternatives are options of the tool's answer to the event's command, and each is
  -- feasible for that command.
  pub process-IsFeasible :
      (w : World F) (r : SearchRecord)
      → get_search w.store e.decision_id ≡ none
      → (process_search_event iso outside e w).0 ≡ ok r
      → is_found r.status ≡ true
      → (command : SearchCommand) × IsSearched iso outside e w command
        × (result : SearchResult) × (outside.search_flights command ≡ some result)
        × (earliest : ℕ) × (latest : ℕ) × (parse_timestamp iso command.earliest_departure_at
            ≡ ok earliest)
        × (parse_timestamp iso command.latest_departure_at ≡ ok latest)
        × All
            (λ a. IsKept iso command result.searched_at earliest latest result.options a.option)
            r.alternatives
  process-IsFeasible w r fresh returned found =
      let acts = process-fresh w r fresh returned found in
      elim (act-cases iso outside e w) [
        | inl quiet ↦ let unfinished = quiet.unfinished in absurd (ground arith)
        | inr made ↦
            let v : World F = record (decided iso outside e w) {
              searched = w.searched ++ made.command ∷ [];
            } in
            let last = searched_record iso outside e made.command in
            let ends = made.ends in
            elim (save-cases iso outside e last v) [
              | inr lost ↦ absurd (ground arith)
              | inl saved ↦
                  let same : last ≡ r = ground arith in
                  let (result, answered, ranked) =
                    searched_record-found made.command (ground arith) in
                  let (earliest, latest, first_time, last_time, kept) =
                    rank-IsFeasible iso made.command result
                      (last.alternatives, last.rejection_summary) ranked in
                  (
                    made.command,
                    made.searched,
                    result,
                    answered,
                    earliest,
                    latest,
                    first_time,
                    last_time,
                    subst
                        (λ q.
                          All
                            (λ a.
                              IsKept iso made.command result.searched_at earliest latest
                                result.options a.option)
                            q.alternatives)
                        same kept,
                  )
            ]
      ]
