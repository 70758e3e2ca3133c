-- ===== src/Hub.antt =====
-- USDXManager and the abstract contracts RWAHub and RWAHubOffChainRedemptions that it extends.
pub mod Peers
pub mod State
pub mod Amounts
pub mod Subscribe
pub mod Redeem
pub mod Prices
pub mod Admin
pub mod Deploy
pub mod Calls
pub mod Invariant
pub mod Reach
pub mod Claiming
pub mod Booking
pub mod Redeeming
pub mod Exchange
pub mod Pricing
pub mod Deposits
pub mod History
pub mod Redemptions
pub mod RedemptionLife
pub mod DepositLife
pub mod Provenance
pub mod Order
pub mod Completing
pub mod Minting
