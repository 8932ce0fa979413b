-- ===== src/Examples.antt =====
-- Small concrete inputs: tests of the definitions, and the theorems at inputs that meet their
-- hypotheses.
mod Database
mod Scoring
mod Fleet
mod Questions
mod Rounds
mod Scores
mod Rows
mod Keeps
mod Chain
mod Batches
mod Schedules
mod Pairings
mod Statements
