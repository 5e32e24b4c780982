-- ===== src/Timelock.antt =====
-- deploy/services/timelock.ts, and the proposal of deploy/services/multisig/gnosis-safe. What the
-- chain, the process environment and the safe's service answer is a parameter, as is the ABI
-- encoder, which may throw. A call throws before it has an effect, or has one effect; whether the
-- chain accepts that transaction is not decided here but by `send` of `Script`.
pub mod Authorized
use Prim.Native.String.{◌++◌ as str_append}
use bsc_alpaca_contract.Prelude.{
  ℕ, zero, suc, String, List, [], ◌∷◌, Option, none, some, Result, ok, throw, ◌>>=◌, ◌>>◌, guard,
  require, ◌==◌, if◌then◌else◌, map,
}
use bsc_alpaca_contract.Address.{compare}

-- The arguments of the contract's `queueTransaction` and `executeTransaction`.
pub record TimelockCall : Type 0 where
  pub target : String
  pub value : String
  pub signature : String
  pub calldata : String
  pub eta : String

-- A value in an array of parameters: a text, or another value with its JSON text.
pub data Item : Type 0 where
  text : String → Item
  json : String → Item

pub data Param : Type 0 where
  item : Item → Param
  array : List Item → Param

-- `TimelockEntity.Transaction`
pub record Transaction : Type 0 where
  pub info : String
  pub chain_id : ℕ
  pub queued_at : String
  pub executed_at : String
  pub execution_transaction : String
  pub target : String
  pub value : String
  pub signature : String
  pub param_types : List String
  pub params : List Param
  pub eta : String

-- What is sent: a call of the timelock by the deployer, or a proposal to the safe that it make one.
pub data Effect : Type 0 where
  queue : TimelockCall → Effect
  propose : String → String → TimelockCall → ℕ → Effect
  execute : TimelockCall → Effect

-- `wallet` is the address of the key in `BSC_MAINNET_PRIVATE_KEY`, if there is one. `next_nonce` and
-- `safe_tx_hash` are answers of the safe's service, which may throw.
pub record Services : Type 0 where
  pub timelock : String
  pub op_multi_sig : String
  pub timelock_admin : String
  pub deployer : String
  pub wallet : Option String
  pub next_nonce : Result ℕ
  pub safe_tx_hash : Effect → Result String
  pub execute_hash : TimelockCall → String
  pub encode : List String → List Param → Result String

-- The arguments of `queueTransaction`.
pub record Request : Type 0 where
  pub chain_id : ℕ
  pub info : String
  pub target : String
  pub value : String
  pub signature : String
  pub param_types : List String
  pub params : List Param
  pub eta : String

abbrev pub quoted : String → String
quoted s = str_append "'" (str_append s "'")

abbrev pub item_text : Item → String
item_text (Item.text s) = quoted s
item_text (Item.json s) = s

-- an array in a template
unfoldable pub joined : List String → String
joined [] = ""
joined (s ∷ []) = s
joined (s ∷ t ∷ rest) = str_append s (str_append "," (joined (t ∷ rest)))

abbrev pub param_text : Param → String
param_text (Param.item i) = item_text i
param_text (Param.array items) = str_append "[" (str_append (joined (map item_text items)) "]")

unfoldable pub execution_tx : Request → String
execution_tx r = str_append "await timelock.executeTransaction(" (
    str_append (joined (quoted r.target ∷ quoted r.value ∷ quoted r.signature ∷ [])) (
      str_append ", ethers.utils.defaultAbiCoder.encode([" (
        str_append (joined (map quoted r.param_types)) (
          str_append "], [" (
            str_append (joined (map param_text r.params))
              (str_append "]), " (str_append (quoted r.eta) ")")))))))

-- a number that counts as true
unfoldable pub if_nonzero : Option ℕ → Option ℕ
if_nonzero none = none
if_nonzero (some zero) = none
if_nonzero (some (suc n)) = some (suc n)

module _ (s : Services) where
  unfoldable pub call_of : Request → Result TimelockCall
  call_of r = do
    calldata ← s.encode r.param_types r.params
    ok (record {
      target = r.target;
      value = r.value;
      signature = r.signature;
      calldata = calldata;
      eta = r.eta;
    })

  abbrev pub nonce_or_next : Option ℕ → Result ℕ
  nonce_or_next none = s.next_nonce
  nonce_or_next (some n) = ok n

  -- `proposeTransaction`, with `opts.nonce`
  unfoldable pub propose_transaction :
      String → String → TimelockCall → Option ℕ → Result (Effect × String)
  propose_transaction to value call nonce = do
    which_nonce ← nonce_or_next (if_nonzero nonce)
    let effect = Effect.propose to value call which_nonce
    tx_hash ← s.safe_tx_hash effect
    ok (effect, tx_hash)

  abbrev pub transaction : Request → String → Transaction
  transaction r queued_at = record {
    info = r.info;
    chain_id = r.chain_id;
    queued_at = queued_at;
    executed_at = "";
    execution_transaction = execution_tx r;
    target = r.target;
    value = r.value;
    signature = r.signature;
    param_types = r.param_types;
    params = r.params;
    eta = r.eta;
  }

  -- the branch where the admin of the timelock is the multisig
  unfoldable pub queue_by_multi_sig : Request → Option ℕ → Result (Effect × Transaction)
  queue_by_multi_sig r nonce = do
    wallet ← require "BSC_MAINNET_PRIVATE_KEY is not defined" s.wallet
    guard (compare wallet s.deployer) "Delpoyer mismatch"
    guard (r.chain_id == 56) "Unsupported chain ID"
    call ← call_of r
    proposed ← propose_transaction s.timelock "0" call (if_nonzero nonce)
    ok (proposed.0, transaction r proposed.1)

  -- the branch where it is the deployer
  unfoldable pub queue_directly : Request → Result (Effect × Transaction)
  queue_directly r = do call ← call_of r; ok (Effect.queue call, transaction r "")

  -- `queueTransaction`, with `overrides.nonce`
  unfoldable pub queue_transaction : Request → Option ℕ → Result (Effect × Transaction)
  queue_transaction r nonce =
      let directly = queue_directly r in
      let by_multi_sig = queue_by_multi_sig r nonce in
      if compare s.timelock_admin s.deployer
      then directly
      else if compare s.timelock_admin s.op_multi_sig
      then by_multi_sig
      else throw "Timelock's admin is not deployer or OpMultiSig"

  -- `executeTransaction`
  unfoldable pub execute_transaction : Request → String → String → Result (Effect × Transaction)
  execute_transaction r queued_at tx = do
    call ← call_of r
    ok (
      Effect.execute call,
      record (transaction r queued_at) {
        executed_at = s.execute_hash call;
        execution_transaction = tx;
      },
    )
