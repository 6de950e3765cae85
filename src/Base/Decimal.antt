-- ===== src/Base/Decimal.antt =====
-- Decimal numerals of f-strings: `{n}` and `{n:03d}`.
use Prim.Native.Nat.{ℕ, zero, suc, ◌/◌, ◌%◌}
use Prim.Native.String.{String}
use Prim.Native.String
use mathlib.Core.Path.{◌≡◌, refl}
use flight_multi_agent.Base.Tests.{ltb, if◌then◌else◌}

digit : ℕ → String
digit zero = "0"
digit (suc zero) = "1"
digit (suc (suc zero)) = "2"
digit (suc (suc (suc zero))) = "3"
digit (suc (suc (suc (suc zero)))) = "4"
digit (suc (suc (suc (suc (suc zero))))) = "5"
digit (suc (suc (suc (suc (suc (suc zero)))))) = "6"
digit (suc (suc (suc (suc (suc (suc (suc zero))))))) = "7"
digit (suc (suc (suc (suc (suc (suc (suc (suc zero)))))))) = "8"
digit _ = "9"

digits_from : ℕ → ℕ → String → String
digits_from zero n after = after
digits_from (suc fuel) n after =
    let text = String.◌++◌ (digit (n % 10)) after in
    let rest = digits_from fuel (n / 10) text in if ltb n 10 then text else rest

-- A number has at most as many digits as its value plus one.
unfoldable pub decimal : ℕ → String
unfolding digit digits_from
decimal n = digits_from (suc n) n ""

unfoldable pub decimal3 : ℕ → String
unfolding decimal
decimal3 n =
    if ltb n 10
    then String.◌++◌ "00" (decimal n)
    else if ltb n 100
    then String.◌++◌ "0" (decimal n)
    else decimal n

decimal3_padded : decimal3 7 ≡ "007"
unfolding decimal3
decimal3_padded = refl

decimal3_long : decimal3 1234 ≡ "1234"
unfolding decimal3
decimal3_long = refl
