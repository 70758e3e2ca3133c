-- ===== src/Compliance.antt =====
-- Who may hold the token: contracts/usdx/allowlist, contracts/usdx/blocklist and the hook of
-- contracts/usdx/USDX.sol.
pub mod Allowlist
pub mod Calls
pub mod Terms
pub mod Status
pub mod Blocklist
pub mod Token
pub mod Factory
pub mod Handover
