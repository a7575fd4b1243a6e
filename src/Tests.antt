-- ===== src/Tests.antt =====
-- The theorems at concrete policies, responses and suites.
mod Data
mod Evaluation
mod Conformance
mod Corpora
mod Diagnostics
mod Records
mod Inputs
mod Commands
mod Mutations
