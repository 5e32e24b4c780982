-- ===== src/Lib.antt =====
-- The off-chain programs of the repository of Alpaca Finance, as definitions with theorems.
--
-- The repository holds Solidity contracts and TypeScript programs around them: the programs that
-- build the Merkle tree of an airdrop, and those that keep the configuration of the deployed
-- contracts, convert it for the deployment scripts, and validate it against the chain. This
-- library models the TypeScript programs.
--
-- - `Prelude`: what the modules share: numbers, texts, arrays as lists, objects as dictionaries,
--   searches, and `Result` for code that throws. `Sort`: the sort of an array, and its dedup.
-- - `Merkle`: utils/merkle-tree.ts (`Merkle/Bytes`, `Merkle/Hash`, `Merkle/Tree`),
--   utils/balance-tree.ts (`Merkle/BalanceTree`) and utils/parse-balance-map.ts
--   (`Merkle/BalanceMap`). A `Buffer` is a list of bytes. `getLayers` recurses on the length of
--   the layer, which falls at each step, so it needs no fuel; printing a number in base 16 makes
--   at most `n + 1` divisions. Keccak-256, `solidityKeccak256`, which may throw,
--   `bufferToHex`, `isAddress`, `getAddress` and `BigNumber` are parameters, with the hypotheses
--   that the hash gives bytes and that the texts tell buffers apart (`IsSound`).
-- - `Address`: utils/address.ts. `Config`: deploy/interfaces/config.ts.
-- - `Entities`: deploy/entities (the configuration of a network, workers and strategies by name);
--   the four configuration files are parameters.
-- - `ConfigFile`: the class of deploy/helper/config-file-helper.ts. Its state is the
--   configuration, the path, and the files that it has written; a method takes the state and
--   returns the next one or the error that it throws. `ConfigFile/Operations` gathers the calls.
-- - `Converter`: deploy/helper/converter.ts.
-- - `Workers`: deploy/adaptors/workerlike, the eight adaptors and their factory. What a contract
--   answers is a parameter; the expectations are lists that are checked in order. A check
--   without a message of its own is given the name of what it reads.
-- - `Validate`: the functions of scripts/validate-config.ts that compare the configuration with
--   the chain.
-- - `Timelock`: deploy/services/timelock.ts and `proposeTransaction` of
--   deploy/services/multisig/gnosis-safe. A call throws, or has one effect and returns the
--   transaction to log; the ABI encoder and the service of the safe may throw.
-- - `Script`: what the scripts under deploy/exec share. A script is a function of the state: the
--   nonce variable, the transactions that the deployer has sent, the configuration, the helper
--   above, the timelock transactions and the written files (deploy/services/file.ts). A statement
--   may throw, and the state at that point is kept. The chain is a parameter (`Chain`): whether it
--   accepts a transaction, how many the deployer has sent and how many of them it counts, and what
--   the contracts answer. It is not a Tenderly fork, so that `getDeployer()` of
--   utils/deployer-helper.ts is the first signer, which some scripts ask for instead.
--   `Script/Triples` has the rules for statements in sequence, `Script/Order` what it means that
--   transactions are sent in the order of their nonces, and `Script/Refused` what follows when the
--   chain refuses a nonce.
-- - `DeployWorkers`: deploy/exec/workers/deploy (`Inputs`, `Steps`, `Exchanges`, `Mdex`,
--   `WaultSwap`, `CakeMaxi`, `CakeMaxiScript`) and deploy/exec/delta-neutral-worker/deploy
--   (`DeltaNeutral`). The inputs that stand in a script are arguments. `Rules` and `DeltaRules`
--   are an interface: a property that every statement of a round keeps is kept by the round;
--   `Nonces` and `Saved` fill it.
-- - `Maintenance`: the scripts of deploy/exec/workers/config, deploy/exec/worker-config/config and
--   deploy/exec/vault-config/config.
-- - `InitPositions`: deploy/exec/delta-neutral-vault/config/init-positions-v2.ts: its amounts
--   (`Amounts`, over integers with a division that drops the fraction), its validations (`Checks`),
--   what it computes before a transaction (`Deposit`) and its loop (`Rounds`). The answers of the
--   tokens, the oracle and the vaults, the ABI encoder and `parseUnits` are parameters (`Answers`).
-- - `Tests`: the theorems at concrete inputs.
--
-- Strings compare by their code points, and `toLowerCase` is that of ASCII, which addresses are
-- written in. Console output is left out except for the reports of the validation. Not modelled:
-- the Solidity contracts, the other scripts under deploy/exec, the multicall and gas price services,
-- and the test suites with their helpers.
pub mod Prelude
pub mod Sort
pub mod Merkle
pub mod Address
pub mod Config
pub mod Entities
pub mod ConfigFile
pub mod Converter
pub mod Workers
pub mod Validate
pub mod Timelock
pub mod Script
pub mod DeployWorkers
pub mod Maintenance
pub mod InitPositions
pub mod Tests
