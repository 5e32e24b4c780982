-- ===== src/Script.antt =====
-- What the scripts of deploy/exec share: the deployer's transactions with their nonces, the calls of
-- `TimelockService.queueTransaction`, the list of queued transactions and the file it is written to
-- (deploy/services/file.ts), and the `ConfigFileHelper`. A statement changes the state and then
-- returns or throws; what happened before an error stays. What the chain answers is a parameter.
pub mod Triples
pub mod Order
pub mod Refused
use bsc_alpaca_contract.Prelude.{
  ℕ, suc, String, Bool, true, false, List, [], ◌∷◌, ◌++◌, Option, none, some, Result, ok, throw,
  Dict, insert, map, guard, ◌&&◌,
}
use bsc_alpaca_contract.Config.{Config}
use bsc_alpaca_contract.ConfigFile.{ConfigFileHelper}
use bsc_alpaca_contract.Timelock.{Services, Request, Effect, Transaction, queue_transaction}

-- A value passed to a contract; `json` is an object with its JSON text.
pub data Atom : Type 0 where
  text : String → Atom
  number : ℕ → Atom
  boolean : Bool → Atom
  json : String → Atom
  undefined : Atom

pub data Value : Type 0 where
  atom : Atom → Value
  array : List Atom → Value

abbrev pub address : Option String → Atom
address none = Atom.undefined
address (some a) = Atom.text a

abbrev pub texts : List String → Value
texts ts = Value.array (map Atom.text ts)

abbrev atoms_defined : List Atom → Bool
atoms_defined [] = true
atoms_defined (Atom.undefined ∷ rest) = false
atoms_defined (a ∷ rest) = atoms_defined rest

abbrev pub are_defined : List Value → Bool
are_defined [] = true
are_defined (Value.atom Atom.undefined ∷ rest) = false
are_defined (Value.atom a ∷ rest) = are_defined rest
are_defined (Value.array atoms ∷ rest) = atoms_defined atoms && are_defined rest

-- What the script sends: a deployment by `UpgradeableContractDeployer`, a call of a contract with
-- the nonce in its overrides, and a transaction that `TimelockService` queues or proposes.
pub data Sent : Type 0 where
  deployment : String → String → List Value → Sent
  call : String → String → List Value → Option ℕ → Sent
  by_timelock : Effect → ℕ → Sent

-- The answers of the chain. Where they depend on what was sent before, that is a list with the
-- latest first. `rejects` is the error of a transaction that is not accepted, if it is not.
-- `transaction_count` is how many transactions the deployer has sent, which is what
-- `getTransactionCount()` answers where all of them are mined; `latest_count` is what it answers
-- where one may still be pending. The chain is not a Tenderly fork, so that `getDeployer()` of
-- utils/deployer-helper.ts is the first of the signers, which some scripts ask for instead.
pub record Chain : Type 0 where
  pub services : Services
  pub chain_id : ℕ
  pub transaction_count : List Sent → ℕ
  pub latest_count : List Sent → ℕ
  pub rejects : Sent → List Sent → Option String
  pub deployed_address : Sent → List Sent → String
  pub deployed_block : Sent → List Sent → ℕ
  pub owner : String → String
  pub parse_ether : String → Result String
  pub lp_token : String → ℕ → String
  pub token_0 : String → String
  pub token_1 : String → String
  pub symbol : String → String

pub record State : Type 0 where
  pub nonce : ℕ
  pub sent : List Sent
  pub helper : ConfigFileHelper
  pub config : Config
  pub timelock_transactions : List Transaction
  pub json_files : Dict (List Transaction)

abbrev pub Script {ℓ} : Type ℓ → Type ℓ
Script A = State → State × Result A

abbrev pub after {ℓ κ} :
    {A : Type ℓ} {B : Type κ} → State × Result A → (A → Script B) → State × Result B
after (s, throw message) next = (s, throw message)
after (s, ok value) next = next value s

infixl 5 ◌>>=◌ ◌>>◌
-- The next statement runs in the state after the first, unless that throws.
abbrev pub ◌>>=◌ {ℓ κ} : {A : Type ℓ} {B : Type κ} → Script A → (A → Script B) → Script B
(first >>= next) s = after (first s) next

abbrev pub ◌>>◌ {ℓ} : {B : Type ℓ} → Script (Unit {0}) → Script B → Script B
first >> second = first >>= λ nothing. second

abbrev pub return {ℓ} : {A : Type ℓ} → A → Script A
return a s = (s, ok a)

-- an expression that does not change the state
abbrev pub lift {ℓ} : {A : Type ℓ} → Result A → Script A
lift r s = (s, r)

-- a `for` loop over an array
abbrev pub for_each {ℓ} : {A : Type ℓ} → (A → Script (Unit {0})) → List A → Script (Unit {0})
for_each f [] = return tt
for_each f (x ∷ xs) = let rest = for_each f xs in f x >> rest

-- `nonce++`
unfoldable pub take_nonce : Script ℕ
take_nonce s = (record s { nonce = suc s.nonce }, ok s.nonce)

abbrev pub get : Script State
get s = (s, ok s)

abbrev pub set_config : ConfigFileHelper → Script (Unit {0})
set_config saved s = (record s { helper = saved; config = saved.config }, ok tt)

-- a method of `ConfigFileHelper`, and `config` set to what it returns
unfoldable pub save_config : (ConfigFileHelper → Result ConfigFileHelper) → Script (Unit {0})
save_config method = do s ← get; saved ← lift (method s.helper); set_config saved

-- `timelockTransactions.push(tx)`
unfoldable pub push_transaction : Transaction → Script (Unit {0})
push_transaction tx s =
    (record s { timelock_transactions = s.timelock_transactions ++ (tx ∷ []) }, ok tt)

-- `fileService.writeJson(title, timelockTransactions)`
unfoldable pub write_json : String → Script (Unit {0})
write_json title s =
    (record s { json_files = insert title s.timelock_transactions s.json_files }, ok tt)

-- The transaction is sent, or its error is thrown.
abbrev pub send_unless : Option String → Sent → Script (Unit {0})
send_unless none x s = (record s { sent = x ∷ s.sent }, ok tt)
send_unless (some message) x s = (s, throw message)

module _ (c : Chain) where
  unfoldable pub send : Sent → Script (Unit {0})
  send x s = send_unless (c.rejects x s.sent) x s

  -- `await contract.method(args, { nonce: nonce++ })`
  unfoldable pub call_numbered : String → String → List Value → Script (Unit {0})
  call_numbered to method args = do n ← take_nonce; send (Sent.call to method args (some n))

  -- `await contract.method(args)`
  unfoldable pub call_contract : String → String → List Value → Script (Unit {0})
  call_contract to method args = send (Sent.call to method args none)

  -- `nonce = await deployer.getTransactionCount()`, where nothing that was sent is pending: at the
  -- start of a script, or after a deployment, which is waited for
  unfoldable pub read_nonce : Script (Unit {0})
  read_nonce s = (record s { nonce = c.transaction_count s.sent }, ok tt)

  -- the same right after a transaction that is not waited for
  unfoldable pub read_latest_nonce : Script (Unit {0})
  read_latest_nonce s = (record s { nonce = c.latest_count s.sent }, ok tt)

  -- `UpgradeableContractDeployer.deploy`: the address of the contract and its block. An argument
  -- that is undefined cannot be encoded.
  unfoldable pub deploy : String → String → List Value → Script (String × ℕ)
  deploy contract name args = do
    lift (guard (are_defined args) "invalid argument")
    s ← get
    let x = Sent.deployment contract name args
    send x
    return (c.deployed_address x s.sent, c.deployed_block x s.sent)

  -- `await TimelockService.queueTransaction(..., { gasPrice, nonce: nonce++ })`
  unfoldable pub queue : Request → Script Transaction
  queue r = do
    n ← take_nonce
    queued ← lift (queue_transaction c.services r (some n))
    send (Sent.by_timelock queued.0 n)
    return queued.1
