-- ===== src/Base/Result.antt =====
-- Python exceptions as values: a call returns, or raises one of the exceptions of the program.
use Prim.Native.Nat.{ℕ}
use mathlib.Core.Option.{Option, none, some}
use mathlib.Core.Path.{◌≡◌, refl, subst}
use mathlib.Core.Logic.{◌⊎◌, inl, inr}

pub data Error : Type 0 where
  value_error overflow_error runtime_error key_error conflict_error bus_error client_error : Error
  -- psycopg's, of a statement that the database refuses
  database_error : Error

pub data Result {ℓ} (A : Type ℓ) : Type ℓ where
  raise : Error → Result A
  ok : A → Result A

-- The answer to an HTTP request: a value, or the status with which it is refused.
pub data Answer (A : Type 0) : Type 0 where
  refused : ℕ → Answer A
  answered : A → Answer A

infixl 10 ◌>>=◌
abbrev pub ◌>>=◌ {ℓ κ} : {A : Type ℓ} {B : Type κ} → Result A → (A → Result B) → Result B
◌>>=◌ (raise exception) next = raise exception
◌>>=◌ (ok value) next = next value

-- `none` stands for the exception.
abbrev pub or_raise {ℓ} : {A : Type ℓ} → Option A → Error → Result A
or_raise (some value) exception = ok value
or_raise none exception = raise exception

module _ {ℓ} {A : Type ℓ} where
  pub Result-cases : (r : Result A) → ((e : Error) × (r ≡ raise e)) ⊎ ((a : A) × (r ≡ ok a))
  Result-cases (raise exception) = inl (exception, refl)
  Result-cases (ok value) = inr (value, refl)

  pub ok-injective : {a b : A} → ok a ≡ ok b → a ≡ b
  ok-injective same = cc

  -- What holds of the value that is returned holds of the result.
  pub ok-ensures {κ} : {a b : A} (P : A → Type κ) → P a → ok a ≡ ok b → P b
  ok-ensures P holds same = subst P (ok-injective same) holds

-- A block that returns has passed its first step.
pub >>=-eq-ok {ℓ κ} :
    {A : Type ℓ} {B : Type κ} (first : Result A) (rest : A → Result B) {last : B}
    → first >>= rest ≡ ok last
    → (value : A) × (first ≡ ok value) × (rest value ≡ ok last)
>>=-eq-ok (raise exception) rest returned = cc
>>=-eq-ok (ok value) rest returned = (value, refl, returned)
