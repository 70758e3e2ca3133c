-- ===== src/Tests.antt =====
-- Concrete parameters, runs of the model at concrete inputs, and the theorems applied there.
mod Chain
mod Hub
mod Pricer
mod Oracle
mod Scripts
mod Compliance
mod Comparison
mod Utils
mod Factory
mod System
mod History
mod Order
mod Completing
