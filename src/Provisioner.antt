-- ===== src/Provisioner.antt =====
-- The package provisioner: plans and their application, over a `Platform`.
pub mod Listing
pub mod Wait
pub mod AsgPlan
pub mod LbPlan
pub mod Plan
pub mod Apply
pub mod Versions
pub mod Dump
