-- ===== src/Maintenance.antt =====
-- Scripts of deploy/exec that change the configuration of contracts that are deployed.
pub mod Inputs
pub mod Workers
pub mod Queued
pub mod Vaults
pub mod Ordered
