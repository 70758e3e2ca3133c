-- ===== src/Pricer.antt =====
-- contracts/Pricer.sol, with PricerWithOracle.sol.
pub mod State
pub mod Latest
pub mod WithOracle
pub mod Synced
