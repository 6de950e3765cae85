-- ===== src/Replay/Keys.antt =====
-- The idempotency key of a notification determines its episode and its severity band.
use Prim.Native.String.{count}
use Prim.Native.String
use Prim.Native.Char.{code}
use text.Mathlib.TextLemmas.{append_inj, append_assoc, append-nil, length-append}
use flight_multi_agent.Base.{ℕ, zero, suc, ◌+◌, ◌≤◌, ◌≡◌, refl, sym, ap, ◌∙◌, String, arith}
use flight_multi_agent.Base.Decimal.{decimal}
use flight_multi_agent.Evidence.{Candidate, Decision}
use flight_multi_agent.Policy.{severity_band, episode_key}
use flight_multi_agent.Replay.{notification_for}

abbrev pub keyed : String → ℕ → String
keyed episode band = String.◌++◌ episode (String.◌++◌ ":" (decimal band))

module _ {F : Type 0} where
  pub severity_band-le : (c : Candidate F) → severity_band c ≤ 3
  unfolding severity_band
  severity_band-le c = ground arith

  pub key-eq-keyed :
      (scenario_id : String) (n : ℕ) (c : Candidate F) (d : Decision F)
      → (notification_for scenario_id n c d).idempotency_key
        ≡ keyed (episode_key c) (severity_band c)
  unfolding notification_for episode_key
  key-eq-keyed scenario_id n c d = simp (append_assoc, append-nil)

-- The code of the second character of a text.
abbrev second_code : String → ℕ
second_code String.[] = 0
second_code (String.◌∷◌ c String.[]) = 0
second_code (String.◌∷◌ c (String.◌∷◌ d s)) = code d

abbrev tail_of : ℕ → String
tail_of band = String.◌++◌ ":" (decimal band)

tail_shape : (a : ℕ) → a ≤ 3 → (second_code (tail_of a) ≡ a + 48) × (count (tail_of a) ≡ 2)
unfolding decimal
tail_shape zero p = (refl, refl)
tail_shape (suc zero) p = (refl, refl)
tail_shape (suc (suc zero)) p = (refl, refl)
tail_shape (suc (suc (suc zero))) p = (refl, refl)
tail_shape (suc (suc (suc (suc a)))) p = absurd (omega arith)

-- Two keys of bands up to 3 are equal only if their episodes and their bands are.
pub keyed-injective :
    (e f : String) (a b : ℕ) → a ≤ 3 → b ≤ 3 → keyed e a ≡ keyed f b → (e ≡ f) × (a ≡ b)
keyed-injective e f a b p q h =
    let (code_a, count_a) = tail_shape a p in
    let (code_b, count_b) = tail_shape b q in
    let total : count e + count (tail_of a) ≡ count f + count (tail_of b) =
      sym (length-append e (tail_of a)) ∙ ap count h ∙ length-append f (tail_of b) in
    let (same, tails) =
      append_inj {s₁ = e} {s₂ = f} {t₁ = tail_of a} {t₂ = tail_of b} h (omega arith) in
    (same, omega (arith, ap second_code tails))
