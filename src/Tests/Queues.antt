-- ===== src/Tests/Queues.antt =====
-- A transaction that the multisig is to queue.
use bsc_alpaca_contract.Prelude.{[], ◌∷◌, some, ◌≡◌, refl, ok, ◌⊎◌, to_lower_case, lower, codes_eq}
use bsc_alpaca_contract.Address.{compare}
use bsc_alpaca_contract.Timelock.{
  Services, TimelockCall, Request, queue_directly, Effect, Transaction, Param, Item, call_of,
  transaction, if_nonzero, propose_transaction, queue_by_multi_sig, queue_transaction,
}
use bsc_alpaca_contract.Timelock.Authorized.{IsDirect, IsProposed, queue_transaction-authorized}

abbrev toy_services : Services
toy_services = record {
  timelock = "0x01";
  op_multi_sig = "0xAA";
  timelock_admin = "0xaa";
  deployer = "0xBb";
  wallet = some "0xbB";
  next_nonce = ok 12;
  safe_tx_hash = λ effect. ok "0x77";
  execute_hash = λ call. "0x78";
  encode = λ types params. ok "0x79";
}

abbrev toy_request : Request
toy_request = record {
  chain_id = 56;
  info = "set the worker";
  target = "0x02";
  value = "0";
  signature = "setConfig(address)";
  param_types = "address" ∷ [];
  params = Param.item (Item.text "0x03") ∷ [];
  eta = "1700000000";
}

abbrev toy_call : TimelockCall
toy_call = record {
  target = "0x02";
  value = "0";
  signature = "setConfig(address)";
  calldata = "0x79";
  eta = "1700000000";
}

abbrev toy_effect : Effect
toy_effect = Effect.propose "0x01" "0" toy_call 12

abbrev toy_tx : Transaction
toy_tx = transaction toy_services toy_request "0x77"

toy_queued : queue_transaction toy_services toy_request (some 0) ≡ ok (toy_effect, toy_tx)
unfolding queue_transaction queue_directly call_of queue_by_multi_sig propose_transaction if_nonzero
    compare to_lower_case lower codes_eq
toy_queued = refl

queue_transaction-authorized_example :
    IsDirect toy_services toy_request toy_effect
    ⊎ IsProposed toy_services toy_request (some 0) toy_effect
queue_transaction-authorized_example =
    queue_transaction-authorized toy_services toy_request (some 0) toy_effect toy_tx toy_queued
