-- ===== src/Scripts/Verify.antt =====
-- The tasks under scripts/usdx/verification-scripts, with scripts/utils/helpers.ts.
pub mod Config
pub mod Helpers
pub mod Tasks
pub mod Silence
pub mod Agreement
pub mod Slots
pub mod Verdict
pub mod Effects
pub mod Completion
