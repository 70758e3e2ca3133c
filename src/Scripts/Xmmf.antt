-- ===== src/Scripts/Xmmf.antt =====
-- The tasks under scripts/xmmf that put XMMF and WXMMF on the main network.
pub mod Propose
pub mod Save
pub mod Manager
