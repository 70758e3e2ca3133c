-- ===== src/System.antt =====
-- The contracts together: USDXManager over the models of USDX, its two lists and the pricer, and the
-- pricer over the model of its oracle.
pub mod Parts
pub mod Screening
pub mod RateChecked
pub mod Paced
