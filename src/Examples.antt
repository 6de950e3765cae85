-- ===== src/Examples.antt =====
-- Concrete inputs: the theorems at scenarios where their hypotheses hold, and tests.
mod Sample
mod Observations
mod Policies
mod Replays
mod Webhooks
mod Evaluations
mod Schedules
mod Claims
mod Redrives
mod Actions
mod Searches
mod Polls
mod Messages
mod Trips
mod Ticks
