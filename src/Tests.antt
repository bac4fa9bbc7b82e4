-- ===== src/Tests.antt =====
-- Inputs on which the theorems apply: the scenarios of the tests in engine_core/src.
pub mod Scenario
pub mod Sources
mod Runs
mod Formats
mod Driver
mod Compiled
mod Replayed
mod Service
mod Storylines
mod Automata
