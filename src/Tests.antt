-- ===== src/Tests.antt =====
-- Runs of the code of src/ at concrete inputs, and instances of the theorems there.
mod World
mod Requests
mod Parts
mod Handler
mod Tasks
mod Tally
mod Single
mod Counting
mod Start
mod Polls
mod Exit
