-- ===== src/Idempotency/Claims.antt =====
-- What the claims of an event exclude.
use text.Mathlib.TextEquality.{eq_iff}
use flight_multi_agent.Base.{
  ℕ, ◌+◌, ◌≤◌, ◌≡◌, refl, String, none, some, List, [], ◌∷◌, false, arith, str_eq, inl, inr,
  Bool-cases, All,
}
use flight_multi_agent.Base.Assoc.{Dict, lookup, lookup-insert, lookup-erase}
use flight_multi_agent.Idempotency.{
  ClaimItem, processing_item, complete_item, ClaimStatus, claimed, completed, busy, processing,
  claim, complete_claim, release, Operation, claims, completes, releases, expires, operate, run,
  expire,
}

-- The item of the event is complete, and no lease is left on it.
abbrev pub IsFinished : Dict ClaimItem → String → Type 0
IsFinished items key =
    (item : ClaimItem) × (lookup key items ≡ some item)
    × (item.status ≡ ClaimStatus.complete)
    × (item.lease_expires_at ≡ none)

-- The operation is a claim within the lease, or it is about another event, or it is a deletion
-- within the life of the claim's item.
abbrev pub Spares : (lease ttl : ℕ) → String → ℕ → Operation lease ttl → Type 0
Spares lease ttl key started (claims now other) = now ≤ started + lease
Spares lease ttl key started (completes now other) = str_eq other key ≡ false
Spares lease ttl key started (releases other) = str_eq other key ≡ false
Spares lease ttl key started (expires now other) = now ≤ started + ttl

-- A completion comes after the first one, and a deletion within the life of the completed item.
abbrev pub Precedes : (lease ttl : ℕ) → ℕ → Operation lease ttl → Type 0
Precedes lease ttl done (claims now other) = Unit
Precedes lease ttl done (completes now other) = done ≤ now
Precedes lease ttl done (releases other) = Unit
Precedes lease ttl done (expires now other) = now ≤ done + ttl

module _ (lease ttl : ℕ) (key : String) where
  pub complete_claim-lookup :
      (now : ℕ) (items : Dict ClaimItem)
      → lookup key (complete_claim lease ttl now key items) ≡ some (complete_item lease ttl now)
  unfolding complete_claim
  complete_claim-lookup now items =
      let fresh = complete_item lease ttl now in
      let put = lookup-insert key key fresh items in let same = eq_iff key key in ground arith

  pub complete_claim-IsFinished :
      (now : ℕ) (other : String) (items : Dict ClaimItem)
      → IsFinished items key
      → IsFinished (complete_claim lease ttl now other items) key
  unfolding complete_claim
  complete_claim-IsFinished now other items (item, held, done, free) =
      let fresh = complete_item lease ttl now in
      let put = lookup-insert other key fresh items in
      elim (Bool-cases (str_eq other key)) [
        | inl same ↦ (fresh, ground arith, refl, refl)
        | inr apart ↦ (item, ground arith, done, free)
      ]

  pub release-IsFinished :
      (other : String) (items : Dict ClaimItem)
      → IsFinished items key
      → IsFinished (release lease ttl other items).1 key
  unfolding release
  release-IsFinished other items (item, held, done, free) =
      let gone = lookup-erase other key items in
      let same = eq_iff other key in (item, ground arith, done, free)

  -- The item of the event is complete without a lease, and lives at least until then.
  abbrev IsLasting : ℕ → Dict ClaimItem → Type 0
  IsLasting until items =
      (item : ClaimItem) × (lookup key items ≡ some item)
      × (item.status ≡ ClaimStatus.complete)
      × (item.lease_expires_at ≡ none)
      × (until ≤ item.expires_at)

  operate-IsLasting :
      (done : ℕ) (operation : Operation lease ttl) (items : Dict ClaimItem)
      → Precedes lease ttl done operation
      → IsLasting (done + ttl) items
      → IsLasting (done + ttl) (operate lease ttl operation items)
  unfolding claim complete_claim release expire
  operate-IsLasting done (claims now other) items early (item, held, over, free, lives) =
      let fresh = processing_item lease ttl now in
      let put = lookup-insert other key fresh items in
      let same = eq_iff other key in (item, ground arith, over, free, lives)
  operate-IsLasting done (completes now other) items late (item, held, over, free, lives) =
      let fresh = complete_item lease ttl now in
      let put = lookup-insert other key fresh items in
      elim (Bool-cases (str_eq other key)) [
        | inl same ↦ (fresh, ground arith, refl, refl, omega arith)
        | inr apart ↦ (item, ground arith, over, free, lives)
      ]
  operate-IsLasting done (releases other) items early (item, held, over, free, lives) =
      let gone = lookup-erase other key items in
      let same = eq_iff other key in (item, ground arith, over, free, lives)
  operate-IsLasting done (expires now other) items early (item, held, over, free, lives) =
      let gone = lookup-erase other key items in
      let same = eq_iff other key in (item, ground arith, over, free, lives)

  run-IsLasting :
      (done : ℕ) (operations : List (Operation lease ttl)) (items : Dict ClaimItem)
      → All (Precedes lease ttl done) operations
      → IsLasting (done + ttl) items
      → IsLasting (done + ttl) (run lease ttl operations items)
  run-IsLasting done [] items each lasting = lasting
  run-IsLasting done (operation ∷ operations) items each lasting =
      run-IsLasting done operations (operate lease ttl operation items) each.1
        (operate-IsLasting done operation items each.0 lasting)

  -- Once an event is completed, every claim of it, at whatever time, answers that the event is
  -- complete and changes nothing, whatever operations come between, if none of these is a completion
  -- at an earlier time, or a deletion of the database after the life of the completed item.
  pub claim-completed :
      (operations : List (Operation lease ttl)) (now later : ℕ) (items : Dict ClaimItem)
      → All (Precedes lease ttl now) operations
      → let after = run lease ttl operations (complete_claim lease ttl now key items) in
        claim lease ttl later key after ≡ (completed, after)
  unfolding claim
  claim-completed operations now later items early =
      let fresh = complete_item lease ttl now in
      let (item, held, over, free, lives) =
        run-IsLasting now operations (complete_claim lease ttl now key items) early
          (fresh, complete_claim-lookup now items, refl, refl, omega arith) in
      ground arith

  abbrev IsHeld : ℕ → Dict ClaimItem → Type 0
  IsHeld started items =
      (item : ClaimItem) × (lookup key items ≡ some item)
      × (item.status ≡ processing)
      × (item.lease_expires_at ≡ some (started + lease))
      × (item.expires_at ≡ started + ttl)

  operate-IsHeld :
      (started : ℕ) (operation : Operation lease ttl) (items : Dict ClaimItem)
      → Spares lease ttl key started operation
      → IsHeld started items
      → IsHeld started (operate lease ttl operation items)
  unfolding claim complete_claim release expire
  operate-IsHeld started (claims now other) items early (item, held, working, leased, life) =
      let fresh = processing_item lease ttl now in
      let put = lookup-insert other key fresh items in
      let same = eq_iff other key in (item, ground arith, working, leased, life)
  operate-IsHeld started (completes now other) items apart (item, held, working, leased, life) =
      let fresh = complete_item lease ttl now in
      let put = lookup-insert other key fresh items in (item, ground arith, working, leased, life)
  operate-IsHeld started (releases other) items apart (item, held, working, leased, life) =
      let gone = lookup-erase other key items in (item, ground arith, working, leased, life)
  operate-IsHeld started (expires now other) items early (item, held, working, leased, life) =
      let gone = lookup-erase other key items in
      let same = eq_iff other key in (item, ground arith, working, leased, life)

  run-IsHeld :
      (started : ℕ) (operations : List (Operation lease ttl)) (items : Dict ClaimItem)
      → All (Spares lease ttl key started) operations
      → IsHeld started items
      → IsHeld started (run lease ttl operations items)
  run-IsHeld started [] items spares held = held
  run-IsHeld started (operation ∷ operations) items spares held =
      run-IsHeld started operations (operate lease ttl operation items) spares.1
        (operate-IsHeld started operation items spares.0 held)

  claimed-IsHeld :
      (now : ℕ) (items : Dict ClaimItem)
      → (claim lease ttl now key items).0 ≡ claimed
      → IsHeld now (claim lease ttl now key items).1
  unfolding claim
  claimed-IsHeld now items first =
      let fresh = processing_item lease ttl now in
      let put = lookup-insert key key fresh items in
      let same = eq_iff key key in (fresh, ground arith, refl, refl, refl)

  -- After a claim has succeeded, every claim of the same event is refused and changes nothing until
  -- the lease is over, whatever operations come between, if these claim within the lease, neither
  -- complete nor release this event, and delete no item after the life of the claim's.
  pub claim-busy :
      (now later : ℕ) (operations : List (Operation lease ttl)) (items : Dict ClaimItem)
      → (claim lease ttl now key items).0 ≡ claimed
      → All (Spares lease ttl key now) operations
      → later ≤ now + lease
      → let after = run lease ttl operations (claim lease ttl now key items).1 in
        claim lease ttl later key after ≡ (busy, after)
  unfolding claim
  claim-busy now later operations items first spares early =
      let (item, held, working, leased, life) =
        run-IsHeld now operations (claim lease ttl now key items).1 spares
          (claimed-IsHeld now items first) in
      ground arith
