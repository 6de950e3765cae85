-- ===== src/Base/Text.antt =====
-- Texts: f-strings, `str.removeprefix`, `str.replace` and the truth value of a text.
use Prim.Native.Nat.{ℕ, zero, suc, ◌-◌}
use Prim.Native.Char.{Char, code}
use Prim.Native.String.{String, count}
use Prim.Native.String
use mathlib.Core.Bool.{Bool, false, not}
use mathlib.Core.List.{List, [], ◌∷◌}
use mathlib.Core.Option.{Option, none, some}
use mathlib.Core.Logic.{◌≢◌, inl, inr}
use mathlib.Core.Path.{◌≡◌, refl, ap}
use text.Mathlib.TextLemmas.{cons-append}
use text.Mathlib.TextEquality.{eq_iff}
use text.Mathlib.Text.{◌==◌ as str_eq}
use flight_multi_agent.Base.Tests.{◌==◌, if◌then◌else◌, get_or, Bool-cases}

-- The parts of an f-string, joined.
abbrev pub fstring : List String → String
fstring [] = ""
fstring (s ∷ parts) = String.◌++◌ s (fstring parts)

-- The rest of a text after a prefix that it begins with.
unfoldable pub strip_prefix : String → String → Option String
strip_prefix String.[] s = some s
strip_prefix (String.◌∷◌ c p) String.[] = none
strip_prefix (String.◌∷◌ c p) (String.◌∷◌ d s) = if code c == code d then strip_prefix p s else none

unfoldable pub remove_prefix : String → String → String
unfolding strip_prefix
remove_prefix s p = get_or (strip_prefix p s) s

-- `skip` counts the characters of a match that are still to be passed over.
replace_from : String → String → ℕ → String → String
replace_from old new skip String.[] = String.[]
replace_from old new (suc skip) (String.◌∷◌ c s) = replace_from old new skip s
replace_from old new zero (String.◌∷◌ c s) =
    let matched = String.◌++◌ new (replace_from old new (count old - 1) s) in
    let kept = String.◌∷◌ c (replace_from old new zero s) in
    elim (strip_prefix old (String.◌∷◌ c s)) [ none ↦ kept | some _ ↦ matched ]

-- `s.replace(old, new)` for a text `old` that is not empty.
unfoldable pub replace : String → String → String → String
unfolding replace_from strip_prefix
replace s old new = replace_from old new zero s

-- An empty text is false.
abbrev pub truthy : String → Bool
truthy s = not (str_eq s "")

-- The code of the first character of a text, by which many texts are told apart.
abbrev pub first_code : String → ℕ
first_code String.[] = 0
first_code (String.◌∷◌ c s) = code c

pub first_code-cons :
    (c : Char) (s t : String) → first_code (String.◌++◌ (String.◌∷◌ c s) t) ≡ code c
first_code-cons c s t = ap first_code (cons-append c s t)

pub str_eq-apart : (s t : String) → first_code s ≢ first_code t → str_eq s t ≡ false
str_eq-apart s t differ = elim (Bool-cases (str_eq s t)) [
  | inl same ↦ absurd (differ (ap first_code ((eq_iff s t).0 same)))
  | inr different ↦ different
]

replace_zulu : replace "2026-08-25T00:00:00Z" "Z" "+00:00" ≡ "2026-08-25T00:00:00+00:00"
unfolding replace
replace_zulu = refl

replace_offset : replace "2026-08-25T00:00:00+00:00" "+00:00" "Z" ≡ "2026-08-25T00:00:00Z"
unfolding replace
replace_offset = refl

remove_prefix_kept : remove_prefix "cand-a" "decision-" ≡ "cand-a"
unfolding remove_prefix
remove_prefix_kept = refl
