-- ===== src/Tests.antt =====
-- The theorems at concrete inputs.
mod Trees
mod Airdrops
mod Configs
mod Chains
mod Queues
mod Deployments
mod Maintenance
mod Positions
