-- ===== src/DeployWorkers/DeltaRules.antt =====
-- What the scripts for delta neutral workers and for the workers of a single asset do to the state.
use bsc_alpaca_contract.Prelude.{ℕ, String, List, ◌∷◌, Option}
use bsc_alpaca_contract.Config.{Strategies}
use bsc_alpaca_contract.Timelock.{Request}
use bsc_alpaca_contract.Script.{Chain, State, Script, ◌>>◌, for_each, read_nonce}
use bsc_alpaca_contract.Script.Triples.{
  Triple, Triple-then, Triple-get, Triple-return, Triple-lift, Triple-if, Triple-consequence,
  Triple-before,
}
use bsc_alpaca_contract.DeployWorkers.Inputs.{Exchange}
use bsc_alpaca_contract.DeployWorkers.Steps.{
  Link, set_reinvestor_ok, set_strategy_ok, set_treasury_config, set_workers_ok,
}
use bsc_alpaca_contract.DeployWorkers.Exchanges.{link_of, record_worker, strategies_of}
use bsc_alpaca_contract.DeployWorkers.DeltaNeutral.{
  DeltaWorkerInfo, deploy_delta_worker, delta_pancakeswap, delta_biswap, delta_spookyswap,
  delta_ok_strats, spooky_ok_strats, delta_strategies_of, delta_pcs_round, delta_bs_round,
  delta_spooky_round, queue_and_push, spooky_set_configs, spooky_set_workers,
}
use bsc_alpaca_contract.DeployWorkers.CakeMaxi.{CakeMaxiWorkerParams}
use bsc_alpaca_contract.DeployWorkers.CakeMaxiScript.{
  deploy_cake_maxi, record_cake_maxi, cake_maxi_round, maxi_ok_strats, maxi_link,
}
use bsc_alpaca_contract.DeployWorkers.Rules.{
  Rules, set_reinvestor_ok-keeps, set_strategy_ok-keeps, set_treasury_config-keeps,
  set_workers_ok-keeps, set_beneficial_vault_config-keeps, queue_and_write-keeps,
  pool_in_config-keeps, linked,
}

module _ {c : Chain} {F P Q : State → Type 0} (rules : Rules c F P Q) where
  -- The calls on the worker, and on its strategies, from the reading of the nonce on.
  set_up :
      (worker bot bps : String) (strats all : List (Option String)) {rest : Script (Unit {0})}
      {R : State → Type 0}
      → Triple F Q rest R
      → Triple F P
          (read_nonce c
            >> (set_reinvestor_ok c worker bot
                >> (set_treasury_config c worker bot bps
                    >> (set_strategy_ok c worker strats
                        >> (for_each (set_workers_ok c worker) all >> rest)))))
          R
  set_up worker bot bps strats all h = Triple-then rules.statements.started (λ _.
      Triple-then (set_reinvestor_ok-keeps rules.statements worker bot) (λ _.
        Triple-then (set_treasury_config-keeps rules.statements worker bot bps) (λ _.
          Triple-then (set_strategy_ok-keeps rules.statements worker strats)
            (λ _. Triple-then (set_workers_ok-keeps rules worker all) (λ _. h)))))

  deploy_delta_worker-keeps :
      (exchange : Exchange) (i : DeltaWorkerInfo) → Triple F P (deploy_delta_worker c exchange i) P
  unfolding deploy_delta_worker
  deploy_delta_worker-keeps exchange i = rules.statements.deployed _ _ _

  queue_and_push-keeps : (r : Request) → Triple F Q (queue_and_push c r) Q
  unfolding queue_and_push
  queue_and_push-keeps r =
      Triple-then (rules.statements.queued r) (λ tx. rules.statements.pushed tx)

  spooky_set_configs-keeps :
      (timelock worker : String) (l : Link) → Triple F Q (spooky_set_configs c timelock worker l) Q
  unfolding spooky_set_configs
  spooky_set_configs-keeps timelock worker l =
      Triple-if _ (queue_and_push-keeps _) (rules.statements.called l.worker_config _ _)

  spooky_set_workers-ends :
      (timelock worker : String) (l : Link) → Triple F Q (spooky_set_workers c timelock worker l) P
  unfolding spooky_set_workers
  spooky_set_workers-ends timelock worker l =
      Triple-if _ (Triple-consequence (queue_and_push-keeps _) rules.statements.relaxed) (
        Triple-before (rules.statements.plainly_called l.vault_config _ _) rules.statements.relaxed)

  module _ {R : State → Type 0} (i : DeltaWorkerInfo)
      (recorded : (worker : String × ℕ) (lp : String) (strategies : Strategies)
        → Triple F P (record_worker c i.base worker lp strategies) R) where
    recorded_within :
        (worker : String × ℕ) (lp : String) (strategies : Strategies)
        → Triple F Q (record_worker c i.base worker lp strategies) R
    recorded_within worker lp strategies =
        Triple-before (recorded worker lp strategies) rules.statements.relaxed

    pub delta_pcs_round-ends : (title : String) → Triple F P (delta_pcs_round c title i) R
    unfolding delta_pcs_round
    delta_pcs_round-ends title =
        Triple-then (deploy_delta_worker-keeps delta_pancakeswap i) (λ worker.
          set_up worker.0 i.base.reinvest_bot i.base.reinvest_bounty_bps (delta_ok_strats i)
            (i.base.add_strat_addr ∷ delta_ok_strats i)
            (Triple-then
              (set_beneficial_vault_config-keeps rules.statements worker.0 i.base.beneficial_vault)
              (λ _. Triple-then (queue_and_write-keeps rules.statements title _) (λ _.
                Triple-then (queue_and_write-keeps rules.statements title _) (λ _.
                  Triple-then
                    (pool_in_config-keeps c rules.fails_within "PancakeswapMasterChefV2"
                      i.base.pool_id)
                    (λ lp. recorded_within worker lp (delta_strategies_of i)))))))

    pub delta_bs_round-ends : (title : String) → Triple F P (delta_bs_round c title i) R
    unfolding delta_bs_round
    delta_bs_round-ends title = Triple-then (deploy_delta_worker-keeps delta_biswap i) (λ worker.
        set_up worker.0 i.base.reinvest_bot i.base.reinvest_bounty_bps (delta_ok_strats i)
          (i.base.add_strat_addr ∷ delta_ok_strats i)
          (Triple-then
            (set_beneficial_vault_config-keeps rules.statements worker.0 i.base.beneficial_vault)
            (λ _. linked rules.statements title i.base.timelock worker.0 (link_of i.base) (
              Triple-then (pool_in_config-keeps c rules.fails_within "Biswap" i.base.pool_id)
                (λ lp. recorded_within worker lp (delta_strategies_of i))))))

    pub delta_spooky_round-ends : (title : String) → Triple F P (delta_spooky_round c title i) R
    unfolding delta_spooky_round
    delta_spooky_round-ends title =
        Triple-then (deploy_delta_worker-keeps delta_spookyswap i) (λ worker.
          set_up worker.0 i.base.reinvest_bot i.base.reinvest_bounty_bps (spooky_ok_strats i.base)
            (i.base.add_strat_addr ∷ spooky_ok_strats i.base)
            (Triple-then
              (set_beneficial_vault_config-keeps rules.statements worker.0 i.base.beneficial_vault)
              (λ _. Triple-then Triple-get (λ s.
                Triple-then (spooky_set_configs-keeps s.config.timelock worker.0 (link_of i.base))
                  (λ _.
                    Triple-then
                      (spooky_set_workers-ends s.config.timelock worker.0 (link_of i.base))
                      (λ _.
                        Triple-then
                          (Triple-if _ (rules.statements.written_between title) (Triple-return tt))
                          (λ _.
                            Triple-then
                              (pool_in_config-keeps c rules.fails_between "SpookySwap"
                                i.base.pool_id)
                              (λ lp. recorded worker lp (strategies_of i.base)))))))))

  -- The round for a worker of a single asset.
  pub cake_maxi_round-ends :
      {R : State → Type 0} (i : CakeMaxiWorkerParams)
      → ((worker : String × ℕ) (worker_config lp : String)
          → Triple F Q (record_cake_maxi c i worker worker_config lp) R)
      → (title : String) → Triple F P (cake_maxi_round c title i) R
  unfolding cake_maxi_round deploy_cake_maxi
  cake_maxi_round-ends i recorded title = Triple-then (rules.statements.deployed _ _ _) (λ worker.
      set_up worker.0 i.reinvest_bot i.reinvest_bounty_bps (maxi_ok_strats i)
        (i.add_strat_addr ∷ i.liq_strat_addr ∷ maxi_ok_strats i)
        (Triple-then (Triple-lift _ rules.fails_within) (λ worker_config.
          linked rules.statements title i.timelock worker.0 (maxi_link i worker_config) (
            Triple-then (pool_in_config-keeps c rules.fails_within "Pancakeswap" i.pool_id)
              (λ lp. recorded worker worker_config lp)))))
