-- ===== src/Examples/Claims.antt =====
-- Two workers that receive the same event.
use flight_multi_agent.Base.{String, List, ◌≡◌, refl, [], ◌∷◌, arith}
use flight_multi_agent.Base.Assoc.{lookup, insert, erase}
use flight_multi_agent.Idempotency.{
  claimed, completed, busy, claim, complete_claim, Operation, claims, completes, expires, expire,
  run, event_key,
}
use flight_multi_agent.Idempotency.Claims.{claim-completed, claim-busy}

abbrev event_a : String
event_a = event_key "travel-eval-agent-v1" "cand-a"

abbrev event_b : String
event_b = event_key "travel-eval-agent-v1" "cand-b"

-- The lease is 120 seconds, and an item lives for two weeks.
first_claim : (claim 120 1209600 1000 event_a []).0 ≡ claimed
unfolding claim lookup
first_claim = refl

abbrev others : List (Operation 120 1209600)
others =
    claims 1010 event_b ∷ claims 1050 event_a ∷ completes 1060 event_b ∷ expires 9000 event_a ∷ []

claim-completed_example :
    let after = run 120 1209600 others (complete_claim 120 1209600 1000 event_a []) in
    claim 120 1209600 9500 event_a after ≡ (completed, after)
claim-completed_example =
    claim-completed 120 1209600 event_a others 1000 9500 []
      (tt, (tt, (omega arith, (omega arith, tt))))

claim-busy_example :
    let after = run 120 1209600 others (claim 120 1209600 1000 event_a []).1 in
    claim 120 1209600 1100 event_a after ≡ (busy, after)
claim-busy_example =
    claim-busy 120 1209600 event_a 1000 1100 others [] first_claim
      (omega arith, (omega arith, (refl, (omega arith, tt)))) (omega arith)

-- After its life the item is deleted, and the event may be claimed again.
claims_again :
    let after = expire 1300000 event_a (complete_claim 120 1209600 1000 event_a []) in
    (claim 120 1209600 1300001 event_a after).0 ≡ claimed
unfolding expire complete_claim claim lookup insert erase
claims_again = refl
