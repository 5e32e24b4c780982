-- ===== src/Maintenance/Ordered.antt =====
-- The nonces of the transactions that the scripts for workers and vaults send.
use bsc_alpaca_contract.Prelude.{String, List, traverse, ◌===◌}
use bsc_alpaca_contract.Address.{compare}
use bsc_alpaca_contract.Timelock.{Request}
use bsc_alpaca_contract.Script.{Chain, State, Script, ◌>>◌, for_each, push_transaction, write_json}
use bsc_alpaca_contract.Script.Triples.{
  Triple, Triple-then, Triple-get, Triple-return, Triple-lift, Triple-for_each, Triple-if,
  Triple-consequence, Triple-always,
}
use bsc_alpaca_contract.Script.Order.{
  IsInOrder, IsCurrent, IsSentInOrder, Counts, IsAdmin, read_nonce-IsCurrent,
  call_numbered-IsCurrent, queue-IsCurrent, save_config-IsCurrent,
}
use bsc_alpaca_contract.Maintenance.Inputs.{
  WorkerReinvestConfigInput, SetParamsInput, SetParamsDerivedInput, VaultParams, BigNumberish,
  CallersInput, CallersDerivedInput, derived_callers,
}
use bsc_alpaca_contract.Maintenance.Workers.{
  queue_and_keep, call_reinvest_config, set_reinvest_config, set_max_reinvest_bounty_bps,
  set_reinvest_config_workers_03,
}
use bsc_alpaca_contract.Maintenance.Vaults.{
  call_set_params, set_params_round, set_params, callers_round, set_whitelisted_callers,
  any_timelocked,
}

module _ (c : Chain) (counts : Counts c) (admin : IsAdmin c) where
  fails : (s : State) → IsCurrent c s → IsSentInOrder c s
  fails s p = p.1

  queue_and_keep-IsCurrent :
      (r : Request) → Triple (IsSentInOrder c) (IsCurrent c) (queue_and_keep c r) (IsCurrent c)
  unfolding queue_and_keep push_transaction
  queue_and_keep-IsCurrent r =
      Triple-then (queue-IsCurrent c counts r admin) (λ tx. record { runs = λ s p. p })

  write_json-IsCurrent :
      (title : String) → Triple (IsSentInOrder c) (IsCurrent c) (write_json title) (IsCurrent c)
  unfolding write_json
  write_json-IsCurrent title = record { runs = λ s p. p }

  set_params_round-IsCurrent :
      (json_text : BigNumberish → String) (title : String) (i : SetParamsDerivedInput)
      → Triple (IsSentInOrder c) (IsCurrent c) (set_params_round c json_text title i) (IsCurrent c)
  unfolding set_params_round call_set_params
  set_params_round-IsCurrent json_text title i = Triple-then Triple-get (λ s.
      Triple-then
        (Triple-if (compare i.owner s.config.timelock)
          (Triple-then (queue_and_keep-IsCurrent _) (λ done. write_json-IsCurrent title))
          (call_numbered-IsCurrent c counts i.vault_config _ _))
        (λ done.
          Triple-if (i.interest_model === "") (Triple-return tt) (save_config-IsCurrent c _)))

  callers_round-IsCurrent :
      (eta : String) (i : CallersDerivedInput)
      → Triple (IsSentInOrder c) (IsCurrent c) (callers_round c eta i) (IsCurrent c)
  unfolding callers_round
  callers_round-IsCurrent eta i = Triple-then Triple-get (λ s.
      Triple-if _ (queue_and_keep-IsCurrent _)
        (call_numbered-IsCurrent c counts i.vault_config _ _))

  -- The rounds over what the inputs are completed to, from the reading of the nonce on.
  rounds-IsCurrent {ℓ} :
      {A : Type ℓ} (round : A → Script (Unit {0})) (xs : List A) {rest : Script (Unit {0})}
      → ((x : A) → Triple (IsSentInOrder c) (IsCurrent c) (round x) (IsCurrent c))
      → Triple (IsSentInOrder c) (IsCurrent c) rest (IsCurrent c)
      → Triple (IsSentInOrder c) (IsCurrent c) (for_each round xs >> rest) (IsCurrent c)
  rounds-IsCurrent round xs h last = Triple-then (Triple-for_each round xs h) (λ done. last)

  -- a whole script, whether it returns or throws
  orderly :
      (m : Script (Unit {0}))
      → Triple (IsSentInOrder c) (IsSentInOrder c) m (IsCurrent c)
      → (s : State) → IsInOrder c s.sent
      → IsInOrder c (m s).0.sent
  orderly m h = Triple-always m (Triple-consequence h fails)

  -- If the deployer is the admin of the timelock, and the chain counts each of its transactions,
  -- then set-reinvest-config.ts, set-reinvest-config-workers03.ts, set-max-reinvest-bounty-bps.ts,
  -- set-params.ts and set-whitelisted-callers.ts give no transaction another nonce than the number of
  -- transactions sent before it, whether they return or throw.
  pub maintenance-IsInOrder :
      (json_text : BigNumberish → String) (on_chain : String → VaultParams) (title bps eta : String)
      (configs : List WorkerReinvestConfigInput) (names : List String)
      (params : List SetParamsInput) (callers : List CallersInput) (s : State)
      → IsInOrder c s.sent
      → IsInOrder c (set_reinvest_config c title eta configs s).0.sent
        × IsInOrder c (set_reinvest_config_workers_03 c configs s).0.sent
        × IsInOrder c (set_max_reinvest_bounty_bps c title bps eta names s).0.sent
        × IsInOrder c (set_params c json_text on_chain title params s).0.sent
        × IsInOrder c (set_whitelisted_callers c title eta callers s).0.sent
  unfolding set_reinvest_config set_reinvest_config_workers_03 set_max_reinvest_bounty_bps
      set_params set_whitelisted_callers call_reinvest_config
  maintenance-IsInOrder json_text on_chain title bps eta configs names params callers s p = (
    orderly (set_reinvest_config c title eta configs)
        (Triple-then Triple-get (λ u. Triple-then (Triple-lift _ (λ t q. q)) (λ done.
          Triple-then (read_nonce-IsCurrent c) (λ _.
            rounds-IsCurrent _ done (λ r. queue_and_keep-IsCurrent _)
              (write_json-IsCurrent title)))))
        s p,
    orderly (set_reinvest_config_workers_03 c configs)
        (Triple-then Triple-get (λ u. Triple-then (Triple-lift _ (λ t q. q)) (λ done.
          Triple-then (read_nonce-IsCurrent c)
            (λ _. Triple-for_each _ done (λ r. call_numbered-IsCurrent c counts r.address _ _)))))
        s p,
    orderly (set_max_reinvest_bounty_bps c title bps eta names)
        (Triple-then Triple-get (λ u. Triple-then (Triple-lift _ (λ t q. q)) (λ done.
          Triple-then (read_nonce-IsCurrent c) (λ _.
            rounds-IsCurrent _ done (λ r. queue_and_keep-IsCurrent _)
              (write_json-IsCurrent title)))))
        s p,
    orderly (set_params c json_text on_chain title params)
        (Triple-then Triple-get (λ u. Triple-then (read_nonce-IsCurrent c) (λ _.
          Triple-then (Triple-lift _ fails)
            (λ infos. Triple-for_each _ infos (set_params_round-IsCurrent json_text title)))))
        s p,
    orderly (set_whitelisted_callers c title eta callers)
        (Triple-then Triple-get (λ u. Triple-then (read_nonce-IsCurrent c) (λ _.
          Triple-then (Triple-lift (traverse (derived_callers u.config) callers) fails) (λ inputs.
            rounds-IsCurrent _ inputs (callers_round-IsCurrent eta) (
              Triple-if (any_timelocked c u.config inputs) (write_json-IsCurrent title)
                (Triple-return tt))))))
        s p,
  )
