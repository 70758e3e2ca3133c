-- ===== src/Oracle.antt =====
-- The two price oracles of contracts/rwaOracles.
pub mod RateCheck
pub mod RateBound
pub mod Drift
pub mod Acceptance
pub mod Comparison
pub mod Comparing
pub mod Compared
