-- ===== src/Scripts/Usdx.antt =====
-- The tasks under scripts/usdx that put USDX on the main network.
pub mod Propose
pub mod Save
pub mod Manager
pub mod Rollout
pub mod TokenRoles
