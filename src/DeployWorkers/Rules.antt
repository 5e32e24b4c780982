-- ===== src/DeployWorkers/Rules.antt =====
-- What the worker scripts of deploy/exec/workers/deploy do to the state, from the rules for the
-- statements that they are made of.
use bsc_alpaca_contract.Prelude.{ℕ, String, List, Option, none, some, traverse}
use bsc_alpaca_contract.Config.{YieldPoolsEntity}
use bsc_alpaca_contract.ConfigFile.Settings.{add_or_set_yiel_pool}
use bsc_alpaca_contract.Timelock.{Request, Transaction}
use bsc_alpaca_contract.Script.{
  Value, Chain, State, Script, ◌>>◌, for_each, save_config, push_transaction, write_json,
  call_numbered, call_contract, read_nonce, read_latest_nonce, deploy, queue,
}
use bsc_alpaca_contract.Script.Triples.{
  Triple, Triple-then, Triple-get, Triple-return, Triple-lift, Triple-for_each, Triple-if,
}
use bsc_alpaca_contract.DeployWorkers.Inputs.{
  BeneficialVaultInput, WorkerInput, WorkerInfo, Exchange, worker_info,
}
use bsc_alpaca_contract.DeployWorkers.Steps.{
  Link, set_reinvestor_ok, set_strategy_ok, set_treasury_config, set_workers_ok,
  set_beneficial_vault_config, queue_and_write, set_configs, set_workers, yield_source,
  pool_in_config, pool_on_chain, add_pool,
}
use bsc_alpaca_contract.DeployWorkers.Exchanges.{
  deploy_worker, record_worker, run_script, biswap, pancakeswap, mdex, tomb, spookyswap,
  biswap_round, pancakeswap_round, mdex_round, tomb_round, spookyswap_round, ok_strats,
  all_ok_strats, link_of, strategies_of,
}

-- The rules for the statements that all scripts use: `P` holds between two rounds, `Q` within a
-- round once the nonce is read, and `F` when an error is thrown.
pub record Statements (c : Chain) (F P Q : State → Type 0) : Type 0 where
  pub relaxed : (s : State) → Q s → P s
  pub deployed :
      (contract name : String) (args : List Value) → Triple F P (deploy c contract name args) P
  pub plainly_called :
      (to method : String) (args : List Value) → Triple F P (call_contract c to method args) P
  pub started : Triple F P (read_nonce c) Q
  pub called :
      (to method : String) (args : List Value) → Triple F Q (call_numbered c to method args) Q
  pub queued : (r : Request) → Triple F Q (queue c r) Q
  pub pushed : (tx : Transaction) → Triple F Q (push_transaction tx) Q
  pub written : (title : String) → Triple F Q (write_json title) Q
  pub written_between : (title : String) → Triple F P (write_json title) P

-- The rules for scripts that may also throw where something is missing in the configuration.
pub record Rules (c : Chain) (F P Q : State → Type 0) : Type 0 where
  pub statements : Statements c F P Q
  pub fails_between : (s : State) → P s → F s
  pub fails_within : (s : State) → Q s → F s
  pub pool_added :
      (source : String) (pool : YieldPoolsEntity)
      → Triple F Q (save_config (add_or_set_yiel_pool source pool)) Q

-- Reading the configuration changes nothing.
yield_source-keeps :
    (c : Chain) {F P : State → Type 0}
    → ((s : State) → P s → F s)
    → (source : String) → Triple F P (yield_source c source) P
unfolding yield_source
yield_source-keeps c fails source = Triple-then Triple-get (λ s. Triple-lift _ fails)

pub pool_in_config-keeps :
    (c : Chain) {F P : State → Type 0}
    → ((s : State) → P s → F s)
    → (source : String) (p_id : ℕ) → Triple F P (pool_in_config c source p_id) P
unfolding pool_in_config
pool_in_config-keeps c fails source p_id =
    Triple-then (yield_source-keeps c fails source)
      (λ found. Triple-then (Triple-lift _ fails) (λ pool. Triple-return _))

module _ {c : Chain} {F P Q : State → Type 0} (on : Statements c F P Q) where
  pub set_reinvestor_ok-keeps :
      (worker bot : String) → Triple F Q (set_reinvestor_ok c worker bot) Q
  unfolding set_reinvestor_ok
  set_reinvestor_ok-keeps worker bot = on.called worker _ _

  pub set_strategy_ok-keeps :
      (worker : String) (strats : List (Option String))
      → Triple F Q (set_strategy_ok c worker strats) Q
  unfolding set_strategy_ok
  set_strategy_ok-keeps worker strats = on.called worker _ _

  pub set_treasury_config-keeps :
      (worker account bps : String) → Triple F Q (set_treasury_config c worker account bps) Q
  unfolding set_treasury_config
  set_treasury_config-keeps worker account bps = on.called worker _ _

  pub set_beneficial_vault_config-keeps :
      (worker : String) (b : Option BeneficialVaultInput)
      → Triple F Q (set_beneficial_vault_config c worker b) Q
  unfolding set_beneficial_vault_config
  set_beneficial_vault_config-keeps worker none = Triple-return tt
  set_beneficial_vault_config-keeps worker (some b) = on.called worker _ _

  pub queue_and_write-keeps :
      (title : String) (r : Request) → Triple F Q (queue_and_write c title r) Q
  unfolding queue_and_write
  queue_and_write-keeps title r =
      Triple-then (on.queued r) (λ tx. Triple-then (on.pushed tx) (λ done. on.written title))

  pub set_configs-keeps :
      (title timelock worker : String) (l : Link)
      → Triple F Q (set_configs c title timelock worker l) Q
  unfolding set_configs
  set_configs-keeps title timelock worker l =
      Triple-if _ (queue_and_write-keeps title _) (on.called l.worker_config _ _)

  pub set_workers-keeps :
      (title timelock worker : String) (l : Link)
      → Triple F Q (set_workers c title timelock worker l) Q
  unfolding set_workers
  set_workers-keeps title timelock worker l =
      Triple-if _ (queue_and_write-keeps title _) (on.called l.vault_config _ _)

  -- The calls on the two configurations.
  pub linked :
      (title timelock worker : String) (l : Link) {rest : Script (Unit {0})} {R : State → Type 0}
      → Triple F Q rest R
      → Triple F Q
          (set_configs c title timelock worker l >> (set_workers c title timelock worker l >> rest))
          R
  linked title timelock worker l h =
      Triple-then (set_configs-keeps title timelock worker l)
        (λ _. Triple-then (set_workers-keeps title timelock worker l) (λ _. h))

  pub deploy_worker-keeps :
      (exchange : Exchange) (i : WorkerInfo) → Triple F P (deploy_worker c exchange i) P
  unfolding deploy_worker
  deploy_worker-keeps exchange i = on.deployed _ _ _

module _ {c : Chain} {F P Q : State → Type 0} (rules : Rules c F P Q) where
  pub set_workers_ok-keeps :
      (worker : String) (strats : List (Option String))
      → Triple F Q (for_each (set_workers_ok c worker) strats) Q
  unfolding set_workers_ok
  set_workers_ok-keeps worker strats =
      Triple-for_each _ strats (λ strat.
        Triple-then (Triple-lift _ rules.fails_within) (λ a. rules.statements.called a _ _))

  add_pool-keeps :
      (source : String) (pool : YieldPoolsEntity) (found : Option YieldPoolsEntity)
      → Triple F Q (add_pool c source pool found) Q
  add_pool-keeps source pool none = rules.pool_added source pool
  add_pool-keeps source pool (some found) = Triple-return tt

  pool_on_chain-keeps :
      (source : String) (chef : Option String) (p_id : ℕ)
      → Triple F Q (pool_on_chain c source chef p_id) Q
  unfolding pool_on_chain
  pool_on_chain-keeps source chef p_id = Triple-then (Triple-lift _ rules.fails_within) (λ to.
      Triple-then (yield_source-keeps c rules.fails_within source)
        (λ found. Triple-then (add_pool-keeps source _ _) (λ done. Triple-return _)))

  -- The calls on the worker, and on its strategies, from the reading of the nonce on.
  set_up :
      (worker : String) (i : WorkerInfo) {rest : Script (Unit {0})} {R : State → Type 0}
      → Triple F Q rest R
      → Triple F P
          (read_nonce c
            >> (set_reinvestor_ok c worker i.reinvest_bot
                >> (set_strategy_ok c worker (ok_strats i)
                    >> (for_each (set_workers_ok c worker) (all_ok_strats i) >> rest))))
          R
  set_up worker i h = Triple-then rules.statements.started (λ _.
      Triple-then (set_reinvestor_ok-keeps rules.statements worker i.reinvest_bot) (λ _.
        Triple-then (set_strategy_ok-keeps rules.statements worker (ok_strats i))
          (λ _. Triple-then (set_workers_ok-keeps worker (all_ok_strats i)) (λ _. h))))

  pub run_script-keeps :
      (exchange : Exchange) (round : WorkerInfo → Script (Unit {0})) (inputs : List WorkerInput)
      → ((i : WorkerInfo) → Triple F P (round i) P)
      → Triple F P (run_script c exchange round inputs) P
  run_script-keeps exchange round inputs h = Triple-then Triple-get (λ s.
      Triple-then
        (Triple-lift (traverse (worker_info c.parse_ether exchange s.config) inputs)
          rules.fails_between)
        (λ infos. Triple-for_each round infos h))

  -- The rounds, which end as the recording of the worker does.
  module _ {R : State → Type 0} (i : WorkerInfo)
      (recorded : (worker : String × ℕ) (lp : String)
        → Triple F Q (record_worker c i worker lp (strategies_of i)) R) where
    pub biswap_round-ends : (title : String) → Triple F P (biswap_round c title i) R
    unfolding biswap_round
    biswap_round-ends title = Triple-then (deploy_worker-keeps rules.statements biswap i) (λ worker.
        set_up worker.0 i (
          Triple-then
            (set_beneficial_vault_config-keeps rules.statements worker.0 i.beneficial_vault)
            (λ _. linked rules.statements title i.timelock worker.0 (link_of i) (
              Triple-then (pool_on_chain-keeps "Biswap" i.master_chef_addr i.pool_id)
                (recorded worker)))))

    pub pancakeswap_round-ends : (title : String) → Triple F P (pancakeswap_round c title i) R
    unfolding pancakeswap_round
    pancakeswap_round-ends title =
        Triple-then (deploy_worker-keeps rules.statements pancakeswap i) (λ worker.
          set_up worker.0 i (
            Triple-then
              (set_beneficial_vault_config-keeps rules.statements worker.0 i.beneficial_vault)
              (λ _. Triple-then Triple-get (λ s.
                linked rules.statements title s.config.timelock worker.0 (link_of i) (
                  Triple-then
                    (pool_on_chain-keeps "PancakeswapMasterChefV2" i.master_chef_addr i.pool_id)
                    (recorded worker))))))

    pub mdex_round-ends :
        Triple F P (read_latest_nonce c) Q → (title : String) → Triple F P (mdex_round c title i) R
    unfolding mdex_round
    mdex_round-ends started title =
        Triple-then (deploy_worker-keeps rules.statements mdex i) (λ worker.
          Triple-then (rules.statements.plainly_called worker.0 "setReinvestorOk" _) (λ _.
            Triple-then started (λ _.
              Triple-then (set_strategy_ok-keeps rules.statements worker.0 (ok_strats i)) (λ _.
                Triple-then (set_workers_ok-keeps worker.0 (all_ok_strats i)) (λ _.
                  linked rules.statements title i.timelock worker.0 (link_of i) (
                    Triple-then (pool_in_config-keeps c rules.fails_within "Mdex" i.pool_id)
                      (recorded worker)))))))

    pub tomb_round-ends : (title : String) → Triple F P (tomb_round c title i) R
    unfolding tomb_round
    tomb_round-ends title = Triple-then (deploy_worker-keeps rules.statements tomb i) (λ worker.
        set_up worker.0 i (
          linked rules.statements title i.timelock worker.0 (link_of i) (
            Triple-then (pool_in_config-keeps c rules.fails_within "TombFinance" i.pool_id)
              (recorded worker))))

    pub spookyswap_round-ends : (title : String) → Triple F P (spookyswap_round c title i) R
    unfolding spookyswap_round
    spookyswap_round-ends title =
        Triple-then (deploy_worker-keeps rules.statements spookyswap i) (λ worker.
          set_up worker.0 i (
            Triple-then
              (set_beneficial_vault_config-keeps rules.statements worker.0 i.beneficial_vault)
              (λ _. linked rules.statements title i.timelock worker.0 (link_of i) (
                Triple-then (pool_in_config-keeps c rules.fails_within "SpookySwap" i.pool_id)
                  (recorded worker)))))
