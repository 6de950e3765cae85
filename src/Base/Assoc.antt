-- ===== src/Base/Assoc.antt =====
-- A Python dictionary with text keys: its items in the order of their first insertion.
use Prim.Native.String.{String}
use mathlib.Core.List.{List, [], ◌∷◌}
use mathlib.Core.Option.{Option, none, some}
use mathlib.Core.Path.{◌≡◌, refl}
use native.Mathlib.Omega.{arith}
use text.Mathlib.Text.{◌==◌ as str_eq}
use text.Mathlib.TextEquality.{eq_iff}
use flight_multi_agent.Base.Tests.{if◌then◌else◌}

abbrev pub Dict {ℓ} : Type ℓ → Type ℓ
Dict V = List (String × V)

module _ {ℓ} {V : Type ℓ} where
  -- `dict.get`
  unfoldable pub lookup : String → Dict V → Option V
  lookup key [] = none
  lookup key (item ∷ items) = if str_eq key item.0 then some item.1 else lookup key items

  -- `dict[key] = value`
  unfoldable pub insert : String → V → Dict V → Dict V
  insert key value [] = (key, value) ∷ []
  insert key value (item ∷ items) =
      let kept = item ∷ insert key value items in
      if str_eq key item.0 then (item.0, value) ∷ items else kept

  -- `dict.pop(key, None)`
  unfoldable pub erase : String → Dict V → Dict V
  erase key [] = []
  erase key (item ∷ items) =
      let others = erase key items in if str_eq key item.0 then others else item ∷ others

  module _ (key other : String) where
    pub lookup-insert :
        (value : V) (items : Dict V)
        → lookup other (insert key value items)
          ≡ (if str_eq key other then some value else lookup other items)
    unfolding lookup insert
    lookup-insert value [] = ground (arith, eq_iff other key, eq_iff key other)
    lookup-insert value (item ∷ items) = ground (
      arith,
      eq_iff key other,
      eq_iff other key,
      eq_iff key item.0,
      eq_iff other item.0,
      lookup-insert value items,
    )

    pub lookup-erase :
        (items : Dict V)
        → lookup other (erase key items) ≡ (if str_eq key other then none else lookup other items)
    unfolding lookup erase
    lookup-erase [] = ground arith
    lookup-erase (item ∷ items) = ground (
      arith,
      eq_iff key other,
      eq_iff other key,
      eq_iff key item.0,
      eq_iff other item.0,
      lookup-erase items,
    )

  pub lookup-empty : (key : String) → lookup key [] ≡ none
  unfolding lookup
  lookup-empty key = refl

pub ruleset dict_laws = (lookup-insert, lookup-erase, lookup-empty)
