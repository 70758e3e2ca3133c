-- ===== src/Scripts.antt =====
-- The TypeScript of the repository: the deployment scripts under deploy, and the tasks under scripts.
pub mod Script
pub mod Constants
pub mod Defender
pub mod Usdx
pub mod Xmmf
pub mod Verify
pub mod Utils
pub mod Deploy
pub mod Ci
