-- ===== src/Synthetic.antt =====
-- synthetic.py: a passing and a failing response from a policy.
pub mod Paths
pub mod Candidates
pub mod Generate
