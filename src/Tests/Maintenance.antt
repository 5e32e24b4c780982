-- ===== src/Tests/Maintenance.antt =====
-- Scripts that change the parameters of workers and vaults, on a small chain.
use bsc_alpaca_contract.Prelude.{
  String, List, true, [], ◌∷◌, none, some, ok, ◌≡◌, refl, traverse, lookup, map, ◌++◌,
}
use bsc_alpaca_contract.Timelock.{TimelockCall, call_of, transaction}
use bsc_alpaca_contract.Script.{State}
use bsc_alpaca_contract.Script.Order.{IsInOrder}
use bsc_alpaca_contract.Entities.{all_workers}
use bsc_alpaca_contract.DeployWorkers.Inputs.{token_address}
use bsc_alpaca_contract.Maintenance.Inputs.{
  WorkerReinvestConfigInput, WorkerReinvestConfig, VaultParams, BigNumberish, CallersInput,
  SetParamsInput, reinvest_config, reinvest_request, find_by_name, lacks_path, completed,
}
use bsc_alpaca_contract.Maintenance.Workers.{
  set_reinvest_config, set_max_reinvest_bounty_bps, set_reinvest_config_workers_03,
}
use bsc_alpaca_contract.Maintenance.Vaults.{set_params, set_whitelisted_callers}
use bsc_alpaca_contract.Maintenance.Queued.{queued_calls, set_reinvest_config-queues}
use bsc_alpaca_contract.Maintenance.Ordered.{maintenance-IsInOrder}
use bsc_alpaca_contract.Tests.Deployments.{toy_chain, toy_state, toy_counts, toy_admin}

abbrev new_config : WorkerReinvestConfigInput
new_config = record {
  worker_name = "CAKE-WBNB PancakeswapWorker";
  reinvest_bounty_bps = "900";
  reinvest_threshold = "1";
  reinvest_path = some ("CAKE" ∷ []);
}

abbrev full_config : WorkerReinvestConfig
full_config = record {
  worker_name = "CAKE-WBNB PancakeswapWorker";
  address = "0xAb";
  reinvest_bounty_bps = "900";
  reinvest_threshold = "1";
  reinvest_path = "0x15" ∷ [];
}

config_completed :
    traverse (reinvest_config toy_chain.parse_ether toy_state.config) (new_config ∷ [])
    ≡ ok (full_config ∷ [])
unfolding reinvest_config find_by_name lacks_path completed token_address lookup all_workers
config_completed = refl

abbrev full_call : TimelockCall
full_call = record {
  target = "0xAb";
  value = "0";
  signature = "setReinvestConfig(uint256,uint256,address[])";
  calldata = "0x79";
  eta = "1700000000";
}

config_encoded :
    traverse
      (call_of toy_chain.services)
      (map (reinvest_request 56 "1700000000") (full_config ∷ []))
    ≡ ok (full_call ∷ [])
unfolding call_of reinvest_request
config_encoded = refl

set_reinvest_config-queues_example :
    (t : State) × (set_reinvest_config toy_chain "queued" "1700000000" (new_config ∷ []) toy_state
      ≡ (t, ok tt))
    × (t.sent ≡ queued_calls 5 (full_call ∷ []) [])
    × (lookup "queued" t.json_files
        ≡ some (
            []
            ++ map
                (λ r. transaction toy_chain.services r "")
                (map (reinvest_request 56 "1700000000") (full_config ∷ []))))
set_reinvest_config-queues_example =
    set_reinvest_config-queues toy_chain toy_admin "queued" "1700000000" (new_config ∷ []) toy_state
      (full_config ∷ []) (full_call ∷ []) config_completed config_encoded (refl, tt)

abbrev toy_params : SetParamsInput
toy_params = record {
  vault_symbol = "ibWBNB";
  min_debt_size_wei = none;
  reserve_pool_bps = some (BigNumberish.digits "1900");
  kill_prize_bps = none;
  interest_model = none;
  treasury_kill_bps = none;
  treasury_addr = none;
  exact_eta = "1700000000";
}

abbrev toy_answer : VaultParams
toy_answer = record {
  owner = "0x12";
  min_debt_size = 1;
  reserve_pool_bps = 1500;
  kill_bps = 100;
  interest_model = "0x0e";
  treasury = "0x20";
  treasury_kill_bps = 400;
  wrapped_native = "0x21";
  wnative_relayer = "0x22";
  fairlaunch = "0x23";
}

abbrev toy_callers : CallersInput
toy_callers = record {
  vault_symbol = "ibWBNB";
  whitelisted_callers = "0x24" ∷ [];
  is_enable = true;
}

abbrev number_text : BigNumberish → String
number_text n = "1"

abbrev names : List String
names = "CAKE-WBNB PancakeswapWorker" ∷ []

maintenance-IsInOrder_example :
    IsInOrder toy_chain
      (set_reinvest_config toy_chain "queued" "1700000000" (new_config ∷ []) toy_state).0.sent
    × IsInOrder toy_chain
        (set_reinvest_config_workers_03 toy_chain (new_config ∷ []) toy_state).0.sent
    × IsInOrder toy_chain
        (set_max_reinvest_bounty_bps toy_chain "queued" "900" "1700000000" names toy_state).0.sent
    × IsInOrder toy_chain
        (set_params toy_chain number_text
          (λ a. toy_answer)
          "queued"
          (toy_params ∷ [])
          toy_state).0.sent
    × IsInOrder toy_chain
        (set_whitelisted_callers toy_chain "queued" "1700000000"
          (toy_callers ∷ [])
          toy_state).0.sent
maintenance-IsInOrder_example =
    maintenance-IsInOrder toy_chain toy_counts toy_admin number_text (λ a. toy_answer) "queued"
      "900" "1700000000" (new_config ∷ []) names (toy_params ∷ []) (toy_callers ∷ []) toy_state tt
