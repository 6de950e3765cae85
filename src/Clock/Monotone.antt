-- ===== src/Clock/Monotone.antt =====
-- The virtual clock never runs backwards, and a refused timestamp leaves it as it was.
use flight_multi_agent.Base.{ℕ, String, ◌≡◌, some, ◌≤◌, arith, inl, inr}
use flight_multi_agent.Base.Result.{Error, ok, raise, Result-cases}
use flight_multi_agent.Clock.{
  IsoFormat, VirtualClock, advance_from, advance_to, parse_timestamp, reading,
}

module _ (iso : IsoFormat) (clock : VirtualClock) (timestamp : String) where
  advance_from_contract :
      (at target : ℕ)
      → (advance_from iso clock at).0 ≡ ok target
      → ((advance_from iso clock at).1.current ≡ some target)
        × (at ≡ target)
        × (reading clock ≤ target)
  unfolding advance_from
  advance_from_contract at target h = ground arith

  -- An advance that returns shows the instant of its timestamp, which is not before what the clock
  -- showed; an advance that raises leaves the clock as it was.
  pub advance_to_contract :
      ((target : ℕ)
        → (advance_to iso clock timestamp).0 ≡ ok target
        → (parse_timestamp iso timestamp ≡ ok target)
          × ((advance_to iso clock timestamp).1.current ≡ some target)
          × (reading clock ≤ target))
      × ((error : Error)
          → (advance_to iso clock timestamp).0 ≡ raise error
          → (advance_to iso clock timestamp).1 ≡ clock)
  unfolding advance_to
  advance_to_contract = elim (Result-cases (parse_timestamp iso timestamp)) [
    | inl (e, bad) ↦ (λ target h. ground arith, λ error h. ground arith)
    | inr (at, good) ↦
        (λ target h. ground (arith, advance_from_contract at target), λ error h. ground arith)
  ]
