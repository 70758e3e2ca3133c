-- ===== src/Scripts/Deploy.antt =====
-- The deployment scripts under deploy/usdx. The tags and the account that pays are left out.
pub mod Production
pub mod Local
pub mod Arguments
