-- ===== src/Offers/Order.antt =====
-- The order of the options: what the sort does with them, and the counts beside it.
use flight_multi_agent.Base.{
  ℕ, suc, ◌+◌, ◌≤◌, ◌<◌, ◌≡◌, ◌⊎◌, refl, String, true, false, List, [], ◌∷◌, All, length, arith,
  inl, inr, Bool-cases, get_or,
}
use flight_multi_agent.Base.Assoc.{Dict, lookup, insert}
use flight_multi_agent.Offers.Ranking.{
  Keyed, place, arrange, numbered, in_order, sorted_counts, place_count,
}

-- An element is related to the first of a list, and each of a list to the one after it.
abbrev pub Precedes : {A : Type 0} → (A → A → Type 0) → A → List A → Type 0
Precedes R x [] = Unit
Precedes R x (y ∷ ys) = R x y

abbrev pub IsChain : {A : Type 0} → (A → A → Type 0) → List A → Type 0
IsChain R [] = Unit
IsChain R (x ∷ xs) = Precedes R x xs × IsChain R xs

-- The sum of the counts.
abbrev pub total : Dict ℕ → ℕ
total [] = 0
total (item ∷ items) = item.1 + total items

-- Of two keys, the first arrives earlier, or at once with no more stops.
abbrev pub IsBefore : Keyed → Keyed → Type 0
IsBefore a b = (a.arrival < b.arrival) ⊎ ((a.arrival ≡ b.arrival) × (a.stops ≤ b.stops))

pub in_order-IsBefore : (a b : Keyed) → in_order a b ≡ true → IsBefore a b
unfolding in_order
in_order-IsBefore a b h = ground arith

pub in_order-false : (a b : Keyed) → in_order a b ≡ false → IsBefore b a
unfolding in_order
in_order-false a b h = ground arith

pub place-Precedes :
    (a k : Keyed) (keyed : List Keyed)
    → IsBefore a k
    → Precedes IsBefore a keyed
    → Precedes IsBefore a (place k keyed)
unfolding place
place-Precedes a k [] h p = h
place-Precedes a k (b ∷ keyed) h p = elim (Bool-cases (in_order k b)) [
  | inl earlier ↦ rw earlier h
  | inr later ↦ rw later p
]

pub place-IsChain :
    (k : Keyed) (keyed : List Keyed) → IsChain IsBefore keyed → IsChain IsBefore (place k keyed)
unfolding place
place-IsChain k [] h = (tt, tt)
place-IsChain k (a ∷ keyed) h = elim (Bool-cases (in_order k a)) [
  | inl earlier ↦ rw earlier (in_order-IsBefore k a earlier, h)
  | inr later ↦
      rw later (place-Precedes a k keyed (in_order-false k a later) h.0, place-IsChain k keyed h.1)
]

pub arrange-IsChain : (keyed : List Keyed) → IsChain IsBefore (arrange keyed)
unfolding arrange
arrange-IsChain [] = tt
arrange-IsChain (k ∷ keyed) = place-IsChain k (arrange keyed) (arrange-IsChain keyed)

pub length-place : (k : Keyed) (keyed : List Keyed) → length (place k keyed) ≡ suc (length keyed)
unfolding place
length-place k [] = refl
length-place k (a ∷ keyed) = ground (arith, length-place k keyed)

pub length-arrange : (keyed : List Keyed) → length (arrange keyed) ≡ length keyed
unfolding arrange
length-arrange [] = refl
length-arrange (k ∷ keyed) = ground (arith, length-place k (arrange keyed), length-arrange keyed)

pub length-numbered : (rank : ℕ) (keyed : List Keyed) → length (numbered rank keyed) ≡ length keyed
unfolding numbered
length-numbered rank [] = refl
length-numbered rank (k ∷ keyed) = ground (arith, length-numbered (suc rank) keyed)

module _ (P : Keyed → Type 0) where
  pub place-All : (k : Keyed) (keyed : List Keyed) → P k → All P keyed → All P (place k keyed)
  unfolding place
  place-All k [] h hs = (h, tt)
  place-All k (a ∷ keyed) h hs = elim (Bool-cases (in_order k a)) [
    | inl earlier ↦ rw earlier (h, hs)
    | inr later ↦ rw later (hs.0, place-All k keyed h hs.1)
  ]

  pub arrange-All : (keyed : List Keyed) → All P keyed → All P (arrange keyed)
  unfolding arrange
  arrange-All [] hs = tt
  arrange-All (k ∷ keyed) hs = place-All k (arrange keyed) hs.0 (arrange-All keyed hs.1)

pub total-bump :
    (reason : String) (counts : Dict ℕ)
    → total (insert reason (get_or (lookup reason counts) 0 + 1) counts) ≡ suc (total counts)
unfolding lookup insert
total-bump reason [] = refl
total-bump reason (item ∷ items) = ground (arith, total-bump reason items)

total-place_count :
    (item : String × ℕ) (items : Dict ℕ) → total (place_count item items) ≡ item.1 + total items
unfolding place_count
total-place_count item [] = refl
total-place_count item (first ∷ items) = ground (arith, total-place_count item items)

pub total-sorted_counts : (items : Dict ℕ) → total (sorted_counts items) ≡ total items
unfolding sorted_counts
total-sorted_counts [] = refl
total-sorted_counts (item ∷ items) =
    ground (arith, total-place_count item (sorted_counts items), total-sorted_counts items)
