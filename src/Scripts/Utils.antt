-- ===== src/Scripts/Utils.antt =====
-- scripts/utils: the helpers for a local node, for deployments and for child processes.
pub mod Shell
pub mod Node
pub mod Retry
pub mod Balance
pub mod Attempts
pub mod Waiting
