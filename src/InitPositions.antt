-- ===== src/InitPositions.antt =====
-- deploy/exec/delta-neutral-vault/config/init-positions-v2.ts: the first deposit into a vault.
pub mod Amounts
pub mod Split
pub mod Checks
pub mod Deposit
pub mod Rounds
pub mod Ordered
pub mod Sound
