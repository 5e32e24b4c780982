-- ===== src/DeployWorkers/Nonces.antt =====
-- The nonces of the transactions that the worker scripts send.
use bsc_alpaca_contract.Prelude.{String, List}
use bsc_alpaca_contract.Script.{
  Chain, State, Script, ◌>>=◌, get, lift, for_each, save_config, push_transaction, write_json,
}
use bsc_alpaca_contract.Script.Triples.{
  Triple, Triple-then, Triple-get, Triple-for_each, Triple-lift, Triple-consequence, Triple-always,
}
use bsc_alpaca_contract.Script.Order.{
  IsInOrder, IsCurrent, IsSentInOrder, Counts, IsAdmin, deploy-IsInOrder, call_contract-IsInOrder,
  read_nonce-IsCurrent, call_numbered-IsCurrent, queue-IsCurrent, save_config-IsCurrent,
}
use bsc_alpaca_contract.ConfigFile.{ConfigFileHelper}
use bsc_alpaca_contract.Prelude.{Result, ℕ, traverse}
use bsc_alpaca_contract.DeployWorkers.Inputs.{WorkerInput, WorkerInfo, Exchange}
use bsc_alpaca_contract.DeployWorkers.Rules.{
  Statements, Rules, run_script-keeps, biswap_round-ends, pancakeswap_round-ends, tomb_round-ends,
  spookyswap_round-ends,
}
use bsc_alpaca_contract.Config.{Strategies}
use bsc_alpaca_contract.DeployWorkers.DeltaNeutral.{
  DeltaWorkerInfo, delta_worker_info, delta_pancakeswap, delta_biswap, delta_spookyswap,
  delta_pcs_round, delta_bs_round, delta_spooky_round, delta_neutral_pcs_worker,
  delta_neutral_bs_worker, delta_neutral_spooky_worker,
}
use bsc_alpaca_contract.DeployWorkers.CakeMaxi.{
  CakeMaxiWorkerInput, CakeMaxiWorkerParams, cake_maxi_params,
}
use bsc_alpaca_contract.DeployWorkers.CakeMaxiScript.{
  record_cake_maxi, cake_maxi_round, cakemaxi_workers_02,
}
use bsc_alpaca_contract.DeployWorkers.DeltaRules.{
  delta_pcs_round-ends, delta_bs_round-ends, delta_spooky_round-ends, cake_maxi_round-ends,
}
use bsc_alpaca_contract.DeployWorkers.Exchanges.{
  record_worker, run_script, biswap, pancakeswap, tomb, spookyswap, biswap_round, biswap_workers_03,
  pancakeswap_round, pancakeswap_v2_workers_02, tomb_round, tomb_workers_03, spookyswap_round,
  spookyswap_workers_03, strategies_of,
}

module _ (c : Chain) (counts : Counts c) (admin : IsAdmin c) where
  save_config-IsInOrder :
      (method : ConfigFileHelper → Result ConfigFileHelper)
      → Triple (IsSentInOrder c) (IsSentInOrder c) (save_config method) (IsSentInOrder c)
  unfolding save_config
  save_config-IsInOrder method = Triple-then Triple-get (λ s.
      Triple-then (Triple-lift (method s.helper) (λ t p. p)) (λ saved. record { runs = λ t p. p }))

  statements : Statements c (IsSentInOrder c) (IsSentInOrder c) (IsCurrent c)
  unfolding push_transaction write_json
  statements = record {
    relaxed = λ s p. p.1;
    deployed = deploy-IsInOrder c;
    plainly_called = call_contract-IsInOrder c;
    started = read_nonce-IsCurrent c;
    called = call_numbered-IsCurrent c counts;
    queued = λ r. queue-IsCurrent c counts r admin;
    pushed = λ tx. record { runs = λ s p. p };
    written = λ title. record { runs = λ s p. p };
    written_between = λ title. record { runs = λ s p. p };
  }

  pub rules : Rules c (IsSentInOrder c) (IsSentInOrder c) (IsCurrent c)
  rules = record {
    statements = statements;
    fails_between = λ s p. p;
    fails_within = λ s p. p.1;
    pool_added = λ source pool. save_config-IsCurrent c _;
  }

  recorded :
      (i : WorkerInfo) (worker : String × ℕ) (lp : String)
      → Triple
          (IsSentInOrder c)
          (IsCurrent c)
          (record_worker c i worker lp (strategies_of i))
          (IsSentInOrder c)
  unfolding record_worker
  recorded i worker lp =
      Triple-then (Triple-lift _ (λ s p. p.1))
        (λ chef. Triple-consequence (save_config-IsCurrent c _) (λ s p. p.1))

  record_cake_maxi-IsInOrder :
      (i : CakeMaxiWorkerParams) (worker : String × ℕ) (worker_config lp : String)
      → Triple
          (IsSentInOrder c)
          (IsCurrent c)
          (record_cake_maxi c i worker worker_config lp)
          (IsSentInOrder c)
  unfolding record_cake_maxi
  record_cake_maxi-IsInOrder i worker worker_config lp =
      Triple-then (Triple-lift _ (λ s p. p.1))
        (λ chef. Triple-consequence (save_config-IsCurrent c _) (λ s p. p.1))

  record_worker-IsInOrder :
      (i : WorkerInfo) (worker : String × ℕ) (lp : String) (strategies : Strategies)
      → Triple
          (IsSentInOrder c)
          (IsSentInOrder c)
          (record_worker c i worker lp strategies)
          (IsSentInOrder c)
  unfolding record_worker
  record_worker-IsInOrder i worker lp strategies =
      Triple-then (Triple-lift _ (λ s p. p)) (λ chef. save_config-IsInOrder _)

  -- A script that completes its inputs, and then goes through one round after the other.
  rounds-IsInOrder {ℓ} :
      {A : Type ℓ} (complete : State → Result (List A)) (round : A → Script (Unit {0}))
      → ((i : A) → Triple (IsSentInOrder c) (IsSentInOrder c) (round i) (IsSentInOrder c))
      → (s : State) → IsInOrder c s.sent
      → IsInOrder c ((get >>= λ t. lift (complete t) >>= for_each round) s).0.sent
  rounds-IsInOrder complete round h =
      Triple-always (get >>= λ t. lift (complete t) >>= for_each round) (
        Triple-then Triple-get (λ t.
          Triple-then (Triple-lift (complete t) (λ s p. p))
            (λ infos. Triple-for_each round infos h)))

  run_script-IsInOrder :
      (exchange : Exchange) (round : WorkerInfo → Script (Unit {0}))
      → ((i : WorkerInfo) → Triple (IsSentInOrder c) (IsSentInOrder c) (round i) (IsSentInOrder c))
      → (inputs : List WorkerInput) (s : State) → IsInOrder c s.sent
      → IsInOrder c (run_script c exchange round inputs s).0.sent
  run_script-IsInOrder exchange round h inputs s p =
      Triple-always (run_script c exchange round inputs)
        (run_script-keeps rules exchange round inputs h) s p

  abbrev completed : Exchange → List WorkerInput → State → Result (List DeltaWorkerInfo)
  completed exchange inputs t = traverse (delta_worker_info c.parse_ether exchange t.config) inputs

  -- If the deployer is the admin of the timelock, and the chain counts each of its transactions,
  -- then the scripts for Biswap, PancakeSwap, Tomb and SpookySwap, which read the nonce after a
  -- deployment that is waited for, give no transaction another nonce than the number of
  -- transactions sent before it, whether they return or throw.
  pub deploy_workers-IsInOrder :
      (title : String) (inputs : List WorkerInput) (s : State)
      → IsInOrder c s.sent
      → IsInOrder c (biswap_workers_03 c title inputs s).0.sent
        × IsInOrder c (pancakeswap_v2_workers_02 c title inputs s).0.sent
        × IsInOrder c (tomb_workers_03 c title inputs s).0.sent
        × IsInOrder c (spookyswap_workers_03 c title inputs s).0.sent
  unfolding biswap_workers_03 pancakeswap_v2_workers_02 tomb_workers_03 spookyswap_workers_03
  deploy_workers-IsInOrder title inputs s p = (
    run_script-IsInOrder biswap (biswap_round c title)
        (λ i. biswap_round-ends rules i (recorded i) title) inputs s p,
    run_script-IsInOrder pancakeswap (pancakeswap_round c title)
        (λ i. pancakeswap_round-ends rules i (recorded i) title) inputs s p,
    run_script-IsInOrder tomb (tomb_round c title) (λ i. tomb_round-ends rules i (recorded i) title)
        inputs s p,
    run_script-IsInOrder spookyswap (spookyswap_round c title)
        (λ i. spookyswap_round-ends rules i (recorded i) title) inputs s p,
  )

  -- If the deployer is the admin of the timelock, and the chain counts each of its transactions,
  -- then the scripts for delta neutral workers on PancakeSwap, Biswap and SpookySwap, and the one for
  -- CakeMaxi workers, give no transaction another nonce than the number of transactions sent before
  -- it, whether they return or throw.
  pub deploy_delta_workers-IsInOrder :
      (network title : String) (inputs : List WorkerInput) (maxi : List CakeMaxiWorkerInput)
      (s : State)
      → IsInOrder c s.sent
      → IsInOrder c (delta_neutral_pcs_worker c title inputs s).0.sent
        × IsInOrder c (delta_neutral_bs_worker c title inputs s).0.sent
        × IsInOrder c (delta_neutral_spooky_worker c title inputs s).0.sent
        × IsInOrder c (cakemaxi_workers_02 c network title maxi s).0.sent
  unfolding delta_neutral_pcs_worker delta_neutral_bs_worker delta_neutral_spooky_worker
      cakemaxi_workers_02
  deploy_delta_workers-IsInOrder network title inputs maxi s p = (
    rounds-IsInOrder (completed delta_pancakeswap inputs) (delta_pcs_round c title)
        (λ i. delta_pcs_round-ends rules i (record_worker-IsInOrder i.base) title) s p,
    rounds-IsInOrder (completed delta_biswap inputs) (delta_bs_round c title)
        (λ i. delta_bs_round-ends rules i (record_worker-IsInOrder i.base) title) s p,
    rounds-IsInOrder (completed delta_spookyswap inputs) (delta_spooky_round c title)
        (λ i. delta_spooky_round-ends rules i (record_worker-IsInOrder i.base) title) s p,
    rounds-IsInOrder (λ t. traverse (cake_maxi_params c.parse_ether network t.config) maxi)
        (cake_maxi_round c title)
        (λ i. cake_maxi_round-ends rules i (record_cake_maxi-IsInOrder i) title) s p,
  )
