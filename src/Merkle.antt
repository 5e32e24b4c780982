-- ===== src/Merkle.antt =====
-- The airdrop tools of utils/: merkle-tree.ts, balance-tree.ts and parse-balance-map.ts.
pub mod Bytes
pub mod Hash
pub mod Tree
pub mod BalanceTree
pub mod BalanceMap
