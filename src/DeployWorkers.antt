-- ===== src/DeployWorkers.antt =====
-- The scripts of deploy/exec/workers/deploy and deploy/exec/delta-neutral-worker/deploy.
pub mod Inputs
pub mod Steps
pub mod Exchanges
pub mod DeltaNeutral
pub mod CakeMaxi
pub mod CakeMaxiScript
pub mod Rules
pub mod DeltaRules
pub mod Nonces
pub mod WaultSwap
pub mod Listed
pub mod Saved
pub mod Outcomes
pub mod Mdex
