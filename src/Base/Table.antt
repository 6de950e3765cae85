-- ===== src/Base/Table.antt =====
-- A table of items under a partition key and a sort key, as DynamoDB keeps them: a put replaces
-- the item of its key, and one key has one item.
use Prim.Native.String.{String}
use mathlib.Core.Bool.{Bool, ◌&&◌}
use mathlib.Core.List.{List, [], ◌∷◌}
use mathlib.Core.Option.{Option, none, some}
use mathlib.Core.Path.{◌≡◌}
use mathlib.Core.Logic.{◌≢◌}
use flight_multi_agent.Base.Text.{first_code, str_eq-apart}
use native.Mathlib.Omega.{arith}
use text.Mathlib.Text.{◌==◌ as str_eq}
use text.Mathlib.TextEquality.{eq_iff}
use flight_multi_agent.Base.Tests.{if◌then◌else◌}

pub record Key : Type 0 where
  pub pk : String
  pub sk : String

abbrev pub key_eq : Key → Key → Bool
key_eq a b = str_eq a.pk b.pk && str_eq a.sk b.sk

pub key_eq_refl : (a : Key) → key_eq a a ≡ Bool.true
key_eq_refl a = ground (arith, eq_iff a.pk a.pk, eq_iff a.sk a.sk)

abbrev pub Table : Type 0 → Type 0
Table V = List (Key × V)

module _ {V : Type 0} where
  unfoldable pub get_item : Key → Table V → Option V
  get_item key [] = none
  get_item key (item ∷ items) = if key_eq key item.0 then some item.1 else get_item key items

  unfoldable pub put_item : Key → V → Table V → Table V
  put_item key value [] = (key, value) ∷ []
  put_item key value (item ∷ items) =
      let kept = item ∷ put_item key value items in
      if key_eq key item.0 then (key, value) ∷ items else kept

  unfoldable pub delete_item : Key → Table V → Table V
  delete_item key [] = []
  delete_item key (item ∷ items) =
      let others = delete_item key items in if key_eq key item.0 then others else item ∷ others

  module _ (key other : Key) where
    pub get_item-put_item :
        (value : V) (items : Table V)
        → get_item other (put_item key value items)
          ≡ (if key_eq key other then some value else get_item other items)
    unfolding get_item put_item
    get_item-put_item value [] = ground (
      arith,
      eq_iff other.pk key.pk,
      eq_iff key.pk other.pk,
      eq_iff other.sk key.sk,
      eq_iff key.sk other.sk,
    )
    get_item-put_item value (item ∷ items) = ground (
      arith,
      eq_iff other.pk key.pk,
      eq_iff key.pk other.pk,
      eq_iff other.sk key.sk,
      eq_iff key.sk other.sk,
      eq_iff key.pk item.0.pk,
      eq_iff key.sk item.0.sk,
      eq_iff other.pk item.0.pk,
      eq_iff other.sk item.0.sk,
      get_item-put_item value items,
    )

    pub get_item-delete_item :
        (items : Table V)
        → get_item other (delete_item key items)
          ≡ (if key_eq key other then none else get_item other items)
    unfolding get_item delete_item
    get_item-delete_item [] = ground arith
    get_item-delete_item (item ∷ items) = ground (
      arith,
      eq_iff other.pk key.pk,
      eq_iff key.pk other.pk,
      eq_iff other.sk key.sk,
      eq_iff key.sk other.sk,
      eq_iff key.pk item.0.pk,
      eq_iff key.sk item.0.sk,
      eq_iff other.pk item.0.pk,
      eq_iff other.sk item.0.sk,
      get_item-delete_item items,
    )

  pub put_item-put_item :
      (key : Key) (first last : V) (items : Table V)
      → put_item key last (put_item key first items) ≡ put_item key last items
  unfolding put_item
  put_item-put_item key first last [] = ground (arith, eq_iff key.pk key.pk, eq_iff key.sk key.sk)
  put_item-put_item key first last (item ∷ items) =
      ground
        (arith, eq_iff key.pk key.pk, eq_iff key.sk key.sk, put_item-put_item key first last items)

pub key_eq_same : (a b : Key) → key_eq a b ≡ Bool.true → a ≡ b
key_eq_same a b same = ground (arith, eq_iff a.pk b.pk, eq_iff a.sk b.sk)

-- Keys whose partitions, or whose sort keys, begin differently.
module _ (a b : Key) where
  pub key_eq-apart_pk : first_code a.pk ≢ first_code b.pk → key_eq a b ≡ Bool.false
  key_eq-apart_pk differ = let apart = str_eq-apart a.pk b.pk differ in ground arith

  pub key_eq-apart_sk : first_code a.sk ≢ first_code b.sk → key_eq a b ≡ Bool.false
  key_eq-apart_sk differ = let apart = str_eq-apart a.sk b.sk differ in ground arith
