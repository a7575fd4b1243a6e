-- ===== src/Precedence.antt =====
-- precedence.py: exhaustive order-conformance checks for peer rules.
pub mod Result
pub mod Orders
pub mod Projections
pub mod Witness
pub mod Report
pub mod Check
