-- ===== src/DeployWorkers/Saved.antt =====
-- What the worker scripts leave in the configuration that `ConfigFileHelper` keeps.
use bsc_alpaca_contract.Prelude.{
  ℕ, String, List, none, some, Result, ok, throw, ◌≡◌, refl, sym, ap, Option-cases, inl, inr,
  find_index, require, lookup, >>=-eq-ok, ok_injective,
}
use bsc_alpaca_contract.Config.{Strategies, VaultsEntity, WorkersEntity, YieldPoolsEntity}
use bsc_alpaca_contract.ConfigFile.{
  ConfigFileHelper, save, write_config_file, find_vault_idx, is_vault, add_or_set_vault_worker,
}
use bsc_alpaca_contract.ConfigFile.Settings.{add_or_set_yiel_pool}
use bsc_alpaca_contract.Script.{
  Sent, Chain, State, after, save_config, set_config, push_transaction, write_json, take_nonce,
  send, call_numbered, call_contract, read_nonce, read_latest_nonce, deploy, queue,
}
use bsc_alpaca_contract.Script.Triples.{
  Triple, Triple-then, Triple-get, Triple-lift, Triple-return, Outcome, Outcome-send_unless,
}
use bsc_alpaca_contract.DeployWorkers.Inputs.{WorkerInfo}
use bsc_alpaca_contract.DeployWorkers.Exchanges.{record_worker}
use bsc_alpaca_contract.DeployWorkers.CakeMaxi.{CakeMaxiWorkerParams}
use bsc_alpaca_contract.DeployWorkers.CakeMaxiScript.{record_cake_maxi}
use bsc_alpaca_contract.DeployWorkers.Rules.{Statements, Rules}
use bsc_alpaca_contract.DeployWorkers.Listed.{IsListed, IsListed-change_at, IsListed-set}

abbrev pub Anything : State → Type 0
Anything s = Unit

-- A property of the vaults in the helper's configuration.
abbrev pub Vaults : (List VaultsEntity → Type 0) → State → Type 0
Vaults V s = V s.helper.config.vaults

-- A method of the helper does to the vaults what it does on its own.
save_config-Vaults :
    (V W : List VaultsEntity → Type 0) (method : ConfigFileHelper → Result ConfigFileHelper)
    → ((this next : ConfigFileHelper)
        → method this ≡ ok next
        → V this.config.vaults
        → W next.config.vaults)
    → Triple Anything (Vaults V) (save_config method) (Vaults W)
unfolding save_config
save_config-Vaults V W method h = record { runs = λ s v. saved s v (method s.helper) refl }
  where
    saved :
        (s : State)
        → V s.helper.config.vaults
        → (r : Result ConfigFileHelper) → method s.helper ≡ r
        → Outcome Anything (Vaults W) (after (s, r) set_config)
    saved s v (throw message) e = tt
    saved s v (ok next) e = h s.helper next e v

add_or_set_yiel_pool-vaults :
    (source : String) (pool : YieldPoolsEntity) (this next : ConfigFileHelper)
    → add_or_set_yiel_pool source pool this ≡ ok next
    → next.config.vaults ≡ this.config.vaults
unfolding add_or_set_yiel_pool save write_config_file
add_or_set_yiel_pool-vaults source pool this next made =
    let (found, _, saved) =
      >>=-eq-ok (require _ (lookup source this.config.yield_sources)) _ made in
    ap (λ (t : ConfigFileHelper). t.config.vaults) (sym (ok_injective saved))

-- After the worker is set, its name is listed, and the names that were listed still are.
add_or_set_vault_worker-IsListed :
    (key name : String) (value : WorkersEntity) (this next : ConfigFileHelper)
    → add_or_set_vault_worker key value this ≡ ok next
    → IsListed value.name next.config.vaults
      × (IsListed name this.config.vaults → IsListed name next.config.vaults)
unfolding add_or_set_vault_worker save write_config_file find_vault_idx
add_or_set_vault_worker-IsListed key name value this next made =
    elim (Option-cases (find_index (is_vault key) this.config.vaults)) [
      | inl nowhere ↦ absurd (refused (rw nowhere at made))
      | inr (i, here) ↦
          let e = ap (λ (t : ConfigFileHelper). t.config.vaults) (ok_injective (rw here at made)) in
          rw (← e) (
            IsListed-set value (is_vault key) i this.config.vaults here,
            IsListed-change_at name value i this.config.vaults,
          )
    ]
  where
    refused : {m : String} {t : ConfigFileHelper} → throw m ≡ ok t → ⊥
    refused h = cc

module _ (c : Chain) (V : List VaultsEntity → Type 0) where
  send-Vaults : (x : Sent) → Triple Anything (Vaults V) (send c x) (Vaults V)
  unfolding send
  send-Vaults x = record {
    runs = λ s v. Outcome-send_unless Anything (Vaults V) (c.rejects x s.sent) x s tt v;
  }

  take_nonce-Vaults : Triple Anything (Vaults V) take_nonce (Vaults V)
  unfolding take_nonce
  take_nonce-Vaults = record { runs = λ s v. v }

  -- No statement that the scripts share changes the vaults.
  statements : Statements c Anything (Vaults V) (Vaults V)
  unfolding deploy call_contract read_nonce call_numbered queue push_transaction write_json
  statements = record {
    relaxed = λ s v. v;
    deployed = λ contract name args. Triple-then (Triple-lift _ (λ s v. tt)) (λ defined.
        Triple-then Triple-get (λ s.
          Triple-then (send-Vaults (Sent.deployment contract name args))
            (λ done. Triple-return _)));
    plainly_called = λ to method args. send-Vaults (Sent.call to method args none);
    started = record { runs = λ s v. v };
    called = λ to method args.
        Triple-then take_nonce-Vaults (λ n. send-Vaults (Sent.call to method args (some n)));
    queued = λ r. Triple-then take_nonce-Vaults (λ n.
        Triple-then (Triple-lift _ (λ s v. tt)) (λ queued.
          Triple-then (send-Vaults (Sent.by_timelock queued.0 n)) (λ done. Triple-return _)));
    pushed = λ tx. record { runs = λ s v. v };
    written = λ title. record { runs = λ s v. v };
    written_between = λ title. record { runs = λ s v. v };
  }

  pub read_latest_nonce-Vaults : Triple Anything (Vaults V) (read_latest_nonce c) (Vaults V)
  unfolding read_latest_nonce
  read_latest_nonce-Vaults = record { runs = λ s v. v }

  pub rules : Rules c Anything (Vaults V) (Vaults V)
  rules = record {
    statements = statements;
    fails_between = λ s v. tt;
    fails_within = λ s v. tt;
    pool_added = λ source pool.
        save_config-Vaults V V (add_or_set_yiel_pool source pool)
          (λ this next made v. rw (add_or_set_yiel_pool-vaults source pool this next made) v);
  }

module _ (c : Chain) (i : WorkerInfo) (worker : String × ℕ) (lp : String)
    (strategies : Strategies) where
  pub record_worker-lists :
      Triple Anything Anything
        (record_worker c i worker lp strategies)
        (Vaults (IsListed i.worker_name))
  unfolding record_worker
  record_worker-lists = Triple-then (Triple-lift _ (λ s v. tt)) (λ chef.
      save_config-Vaults (λ vaults. Unit) (IsListed i.worker_name) (add_or_set_vault_worker _ _)
        (λ this next made v. (add_or_set_vault_worker-IsListed _ i.worker_name _ this next made).0))

  pub record_worker-keeps :
      (name : String)
      → Triple Anything
          (Vaults (IsListed name))
          (record_worker c i worker lp strategies)
          (Vaults (IsListed name))
  unfolding record_worker
  record_worker-keeps name = Triple-then (Triple-lift _ (λ s v. tt)) (λ chef.
      save_config-Vaults (IsListed name) (IsListed name) (add_or_set_vault_worker _ _)
        (λ this next made v. (add_or_set_vault_worker-IsListed _ name _ this next made).1 v))

module _ (c : Chain) (i : CakeMaxiWorkerParams) (worker : String × ℕ)
    (worker_config lp : String) where
  pub record_cake_maxi-lists :
      Triple Anything Anything
        (record_cake_maxi c i worker worker_config lp)
        (Vaults (IsListed i.worker_name))
  unfolding record_cake_maxi
  record_cake_maxi-lists = Triple-then (Triple-lift _ (λ s v. tt)) (λ chef.
      save_config-Vaults (λ vaults. Unit) (IsListed i.worker_name) (add_or_set_vault_worker _ _)
        (λ this next made v. (add_or_set_vault_worker-IsListed _ i.worker_name _ this next made).0))

  pub record_cake_maxi-keeps :
      (name : String)
      → Triple Anything
          (Vaults (IsListed name))
          (record_cake_maxi c i worker worker_config lp)
          (Vaults (IsListed name))
  unfolding record_cake_maxi
  record_cake_maxi-keeps name = Triple-then (Triple-lift _ (λ s v. tt)) (λ chef.
      save_config-Vaults (IsListed name) (IsListed name) (add_or_set_vault_worker _ _)
        (λ this next made v. (add_or_set_vault_worker-IsListed _ name _ this next made).1 v))
