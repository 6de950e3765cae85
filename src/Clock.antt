-- ===== src/Clock.antt =====
-- travel_eval/clock.py: RFC 3339 timestamps as instants, and the monotone clock of a replay.
--
-- An instant is a number of microseconds since 0001-01-01T00:00Z, the first instant of Python's
-- `datetime`. The text format itself is `datetime.fromisoformat` and `datetime.isoformat`, which
-- are the two operations of the parameter `IsoFormat`.
pub mod Monotone
use flight_multi_agent.Base.{ℕ, ◌+◌, String, Option, none, some, ltb, if◌then◌else◌}
use flight_multi_agent.Base.Int.{ℤ, pos, negsuc, ◌-ℤ◌}
use flight_multi_agent.Base.Text.{replace}
use flight_multi_agent.Base.Result.{
  Result, ok, raise, value_error, overflow_error, runtime_error, or_raise, ◌>>=◌,
}

-- A `datetime`: its wall clock in microseconds and, if it is aware, its offset from UTC.
pub record DateTime : Type 0 where
  pub local : ℕ
  pub utc_offset : Option ℤ

pub record IsoFormat : Type 0 where
  -- `none` is the `ValueError` of a text that is no timestamp.
  pub fromisoformat : String → Option DateTime
  -- The text of an instant at offset zero, which ends in `+00:00`.
  pub isoformat : ℕ → String

-- 9999-12-31T23:59:59.999999Z
abbrev pub max_instant : ℕ
max_instant = 315537897599999999

-- `astimezone(timezone.utc)` of an aware value.
in_range : ℤ → Result ℕ
in_range (pos n) = if ltb max_instant n then raise overflow_error else ok n
in_range (negsuc n) = raise overflow_error

to_utc : DateTime → Result ℕ
unfolding in_range
to_utc d = elim d.utc_offset [
  | none ↦ raise value_error
  | some offset ↦ in_range (pos d.local -ℤ offset)
]

module _ (iso : IsoFormat) where
  unfoldable pub parse_timestamp : String → Result ℕ
  unfolding to_utc ◌-ℤ◌ replace
  parse_timestamp value = do
    parsed ← or_raise (iso.fromisoformat (replace value "Z" "+00:00")) value_error
    to_utc parsed

  unfoldable pub format_timestamp : ℕ → String
  unfolding replace
  format_timestamp value = replace (iso.isoformat value) "+00:00" "Z"

-- The microseconds of a minute and an hour, as `timedelta` counts them.
abbrev pub minute : ℕ
minute = 60000000

abbrev pub hour : ℕ
hour = 3600000000

-- A `datetime` plus a `timedelta` that is not negative.
unfoldable pub plus : ℕ → ℕ → Result ℕ
unfolding in_range
plus instant duration = in_range (pos (instant + duration))

-- `VirtualClock`; the field is its `current`.
pub record VirtualClock : Type 0 where
  pub current : Option ℕ

abbrev pub new_clock : VirtualClock
new_clock = record { current = none }

module _ (iso : IsoFormat) where
  -- `VirtualClock.advance_to`: the new clock, or the exception with the clock left as it was.
  advance_from : VirtualClock → ℕ → Result ℕ × VirtualClock
  advance_from clock target =
      let moved : Result ℕ × VirtualClock = (ok target, record { current = some target }) in
      elim clock.current [
        | none ↦ moved
        | some now ↦ if ltb target now then (raise value_error, clock) else moved
      ]

  unfoldable pub advance_to : VirtualClock → String → Result ℕ × VirtualClock
  unfolding advance_from
  advance_to clock timestamp = elim (parse_timestamp iso timestamp) [
    | ok target ↦ advance_from clock target
    | raise e ↦ (raise e, clock)
  ]

-- What the clock shows, with 0 before it is first set.
abbrev pub reading : VirtualClock → ℕ
reading clock = elim clock.current [ none ↦ 0 | some now ↦ now ]

unfoldable pub now : VirtualClock → Result ℕ
now clock = or_raise clock.current runtime_error
