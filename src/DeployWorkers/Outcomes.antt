-- ===== src/DeployWorkers/Outcomes.antt =====
-- The configuration after a worker script of deploy/exec/workers/deploy has returned.
use bsc_alpaca_contract.Prelude.{
  String, List, [], ◌∷◌, ◌++◌, Result, ok, throw, ◌≡◌, refl, sym, ap, ◌∙◌, ◌⊎◌, find, guard, not,
  ◌===◌, inl, inr, require, lookup, traverse, >>=-eq-ok, ok_injective, ok≢throw,
}
use bsc_alpaca_contract.Config.{Config}
use bsc_alpaca_contract.Script.{Chain, State, Script, after, for_each, ◌>>=◌, get, lift}
use bsc_alpaca_contract.Script.Triples.{Triple, Triple-then, Triple-for_each, Outcome}
use bsc_alpaca_contract.DeployWorkers.Inputs.{
  WorkerInput, WorkerInfo, Exchange, worker_info, vault_of, token_address, with_reward_path,
}
use bsc_alpaca_contract.DeployWorkers.Exchanges.{
  run_script, strategies_of, biswap, pancakeswap, mdex, tomb, spookyswap, biswap_round,
  biswap_workers_03, pancakeswap_round, pancakeswap_v2_workers_02, mdex_round, mdex_workers_02,
  tomb_round, tomb_workers_03, spookyswap_round, spookyswap_workers_03,
}
use bsc_alpaca_contract.DeployWorkers.Rules.{
  biswap_round-ends, pancakeswap_round-ends, mdex_round-ends, tomb_round-ends,
  spookyswap_round-ends,
}
use bsc_alpaca_contract.DeployWorkers.DeltaNeutral.{
  DeltaWorkerInfo, delta_worker_info, with_delta_fields, delta_pancakeswap, delta_biswap,
  delta_spookyswap, run_delta_script, delta_pcs_round, delta_bs_round, delta_spooky_round,
  delta_neutral_pcs_worker, delta_neutral_bs_worker, delta_neutral_spooky_worker,
}
use bsc_alpaca_contract.DeployWorkers.CakeMaxi.{
  CakeMaxiWorkerInput, CakeMaxiWorkerParams, cake_maxi_params, beneficial_vault_address,
  reward_token_address,
}
use bsc_alpaca_contract.DeployWorkers.CakeMaxiScript.{cake_maxi_round, cakemaxi_workers_02}
use bsc_alpaca_contract.DeployWorkers.DeltaRules.{
  delta_pcs_round-ends, delta_bs_round-ends, delta_spooky_round-ends, cake_maxi_round-ends,
}
use bsc_alpaca_contract.DeployWorkers.Listed.{IsListed}
use bsc_alpaca_contract.DeployWorkers.Saved.{
  read_latest_nonce-Vaults, Anything, Vaults, rules, record_worker-lists, record_worker-keeps,
  record_cake_maxi-lists, record_cake_maxi-keeps,
}

worker_info-name :
    (parse_ether : String → Result String) (exchange : Exchange) (config : Config) (n : WorkerInput)
    {i : WorkerInfo}
    → worker_info parse_ether exchange config n ≡ ok i
    → i.worker_name ≡ n.worker_name
unfolding worker_info
worker_info-name parse_ether exchange config n {i} made =
    let (_, _, made) = >>=-eq-ok (vault_of config n.vault_symbol) _ made in
    let (_, _, made) = >>=-eq-ok (traverse (token_address config) n.reinvest_path) _ made in
    let (_, _, made) = >>=-eq-ok (with_reward_path config n.beneficial_vault) _ made in
    let (_, _, made) =
      >>=-eq-ok (require _ (lookup exchange.yield_source config.yield_sources)) _ made in
    let (_, _, made) =
      >>=-eq-ok (require _ (lookup exchange.router_source config.yield_sources)) _ made in
    let (_, _, made) =
      >>=-eq-ok (require _ (lookup exchange.strategies config.shared_strategies)) _ made in
    let (_, _, made) = >>=-eq-ok (parse_ether n.reinvest_threshold) _ made in
    sym (ap (λ (j : WorkerInfo). j.worker_name) (ok_injective made))

-- What a callback returned for an element stands in the result of `map`.
traverse-middle {ℓ κ} :
    {A : Type ℓ} {B : Type κ} (f : A → Result B) (before : List A) (x : A) (rest : List A)
    {ys : List B}
    → traverse f (before ++ (x ∷ rest)) ≡ ok ys
    → (front back : List B) × (y : B) × (ys ≡ front ++ (y ∷ back)) × (f x ≡ ok y)
traverse-middle f [] x rest made =
    let (y, here, made) = >>=-eq-ok (f x) _ made in
    let (back, _, made) = >>=-eq-ok (traverse f rest) _ made in
    ([], back, y, sym (ok_injective made), here)
traverse-middle f (z ∷ before) x rest made =
    let (v, _, made) = >>=-eq-ok (f z) _ made in
    let (ys, later, made) = >>=-eq-ok (traverse f (before ++ (x ∷ rest))) _ made in
    let (front, back, y, split, here) = traverse-middle f before x rest later in
    (v ∷ front, back, y, rw split at (sym (ok_injective made)), here)

with_delta_fields-name :
    (exchange : Exchange) (config : Config) (name : String) (r : Result WorkerInfo)
    {i : DeltaWorkerInfo}
    → ((base : WorkerInfo) → r ≡ ok base → base.worker_name ≡ name)
    → with_delta_fields exchange config r ≡ ok i
    → i.base.worker_name ≡ name
with_delta_fields-name exchange config name (throw message) named made =
    absurd (ok≢throw (sym made))
with_delta_fields-name exchange config name (ok base) named made =
    sym (ap (λ (j : DeltaWorkerInfo). j.base.worker_name) (ok_injective made)) ∙ named base refl

delta_worker_info-name :
    (parse_ether : String → Result String) (exchange : Exchange) (config : Config) (n : WorkerInput)
    {i : DeltaWorkerInfo}
    → delta_worker_info parse_ether exchange config n ≡ ok i
    → i.base.worker_name ≡ n.worker_name
unfolding delta_worker_info
delta_worker_info-name parse_ether exchange config n made =
    with_delta_fields-name exchange config n.worker_name (worker_info parse_ether exchange config n)
      (λ base e. worker_info-name parse_ether exchange config n e) made

cake_maxi_params-name :
    (parse_ether : String → Result String) (network : String) (config : Config)
    (n : CakeMaxiWorkerInput) {i : CakeMaxiWorkerParams}
    → cake_maxi_params parse_ether network config n ≡ ok i
    → i.worker_name ≡ n.worker_name
unfolding cake_maxi_params
cake_maxi_params-name parse_ether network config n {i} made =
    let (_, _, made) =
      >>=-eq-ok (require _ (find (λ v. v.symbol === n.vault_symbol) config.vaults)) _ made in
    let (b, _, made) =
      >>=-eq-ok (beneficial_vault_address network config n.beneficial_vault_symbol) _ made in
    let (_, _, made) = >>=-eq-ok (guard (not (b === "")) _) _ made in
    let (_, _, made) = >>=-eq-ok (traverse (token_address config) n.path) _ made in
    let (_, _, made) = >>=-eq-ok (traverse (reward_token_address config) n.reward_path) _ made in
    let (_, _, made) = >>=-eq-ok (require _ (lookup "Pancakeswap" config.yield_sources)) _ made in
    let (_, _, made) =
      >>=-eq-ok (require _ (lookup "PancakeswapSingleAsset" config.shared_strategies)) _ made in
    let (_, _, made) = >>=-eq-ok (parse_ether n.reinvest_threshold) _ made in
    sym (ap (λ (j : CakeMaxiWorkerParams). j.worker_name) (ok_injective made))

-- A script that completes its inputs, and then goes through one round after the other, each of
-- which lists its worker and leaves the names that are listed.
module _ {I A : Type 0} (complete : State → I → Result A) (name : A → String)
    (round : A → Script (Unit {0}))
    (lists : (i : A) → Triple Anything Anything (round i) (Vaults (IsListed (name i))))
    (keeps : (i : A) (n : String)
      → Triple Anything (Vaults (IsListed n)) (round i) (Vaults (IsListed n))) where
  for_each-lists :
      (front : List A) (i : A) (back : List A)
      → Triple Anything Anything (for_each round (front ++ (i ∷ back))) (Vaults (IsListed (name i)))
  for_each-lists [] i back =
      Triple-then (lists i) (λ done. Triple-for_each round back (λ j. keeps j (name i)))
  for_each-lists (j ∷ front) i back =
      Triple-then (lists j)
        (λ done. record { runs = λ s p. (for_each-lists front i back).runs s tt })

  rounds-list :
      (before : List I) (input : I) (rest : List I) (s t : State)
      → (get >>= λ u. lift (traverse (complete u) (before ++ (input ∷ rest))) >>= for_each round) s
        ≡ (t, ok tt)
      → (i : A) × (complete s input ≡ ok i) × IsListed (name i) t.helper.config.vaults
  rounds-list before input rest s t returned =
      of_infos (traverse (complete s) (before ++ (input ∷ rest))) refl returned
    where
      ends :
          (u : State × Result (Unit {0})) (V : State → Type 0)
          → Outcome Anything V u
          → u ≡ (t, ok tt)
          → V t
      ends u V h e = rw e at h

      of_infos :
          (r : Result (List A))
          → traverse (complete s) (before ++ (input ∷ rest)) ≡ r
          → after (s, r) (for_each round) ≡ (t, ok tt)
          → (i : A) × (complete s input ≡ ok i) × IsListed (name i) t.helper.config.vaults
      of_infos (throw message) e back = absurd (ok≢throw (sym (ap (λ u. u.1) back)))
      of_infos (ok infos) e back =
          let (front, later, i, split, here) = traverse-middle (complete s) before input rest e in
          (
            i,
            here,
            ends _ (Vaults (IsListed (name i))) ((for_each-lists front i later).runs s tt)
                (rw split at back),
          )

module _ (c : Chain) (exchange : Exchange) where
  listed :
      (round : WorkerInfo → Script (Unit {0}))
      → ((i : WorkerInfo) → Triple Anything Anything (round i) (Vaults (IsListed i.worker_name)))
      → ((i : WorkerInfo) (n : String)
          → Triple Anything (Vaults (IsListed n)) (round i) (Vaults (IsListed n)))
      → (before : List WorkerInput) (input : WorkerInput) (rest : List WorkerInput) (s t : State)
      → run_script c exchange round (before ++ (input ∷ rest)) s ≡ (t, ok tt)
      → IsListed input.worker_name t.helper.config.vaults
  listed round lists keeps before input rest s t returned =
      let complete =
        λ (u : State) (n : WorkerInput). worker_info c.parse_ether exchange u.config n in
      let (i, here, named) =
        rounds-list complete (λ i. i.worker_name) round lists keeps before input rest s t
          returned in
      rw (← worker_info-name c.parse_ether exchange s.config input here) named

  delta-IsListed :
      (round : DeltaWorkerInfo → Script (Unit {0}))
      → ((i : DeltaWorkerInfo)
          → Triple Anything Anything (round i) (Vaults (IsListed i.base.worker_name)))
      → ((i : DeltaWorkerInfo) (n : String)
          → Triple Anything (Vaults (IsListed n)) (round i) (Vaults (IsListed n)))
      → (before : List WorkerInput) (input : WorkerInput) (rest : List WorkerInput) (s t : State)
      → run_delta_script c exchange round (before ++ (input ∷ rest)) s ≡ (t, ok tt)
      → IsListed input.worker_name t.helper.config.vaults
  delta-IsListed round lists keeps before input rest s t returned =
      let complete =
        λ (u : State) (n : WorkerInput). delta_worker_info c.parse_ether exchange u.config n in
      let (i, here, named) =
        rounds-list complete (λ i. i.base.worker_name) round lists keeps before input rest s t
          returned in
      rw (← delta_worker_info-name c.parse_ether exchange s.config input here) named

-- If the script for Biswap, PancakeSwap, Mdex, Tomb or SpookySwap returns, then the worker of every
-- input is listed in the configuration: a search for its name in all workers finds a worker.
pub deploy_workers-IsListed :
    (c : Chain) (title : String) (before : List WorkerInput) (input : WorkerInput)
    (rest : List WorkerInput) (s t : State)
    → (biswap_workers_03 c title (before ++ (input ∷ rest)) s ≡ (t, ok tt))
      ⊎ (pancakeswap_v2_workers_02 c title (before ++ (input ∷ rest)) s ≡ (t, ok tt))
      ⊎ (mdex_workers_02 c title (before ++ (input ∷ rest)) s ≡ (t, ok tt))
      ⊎ (tomb_workers_03 c title (before ++ (input ∷ rest)) s ≡ (t, ok tt))
      ⊎ (spookyswap_workers_03 c title (before ++ (input ∷ rest)) s ≡ (t, ok tt))
    → IsListed input.worker_name t.helper.config.vaults
unfolding biswap_workers_03 pancakeswap_v2_workers_02 mdex_workers_02 tomb_workers_03
    spookyswap_workers_03
deploy_workers-IsListed c title before input rest s t (inl h) =
    listed c biswap (biswap_round c title)
      (λ i.
        biswap_round-ends (rules c (λ vaults. Unit)) i
          (λ worker lp. record_worker-lists c i worker lp (strategies_of i)) title)
      (λ i name.
        biswap_round-ends (rules c (IsListed name)) i
          (λ worker lp. record_worker-keeps c i worker lp (strategies_of i) name) title)
      before input rest s t h
deploy_workers-IsListed c title before input rest s t (inr (inl h)) =
    listed c pancakeswap (pancakeswap_round c title)
      (λ i.
        pancakeswap_round-ends (rules c (λ vaults. Unit)) i
          (λ worker lp. record_worker-lists c i worker lp (strategies_of i)) title)
      (λ i name.
        pancakeswap_round-ends (rules c (IsListed name)) i
          (λ worker lp. record_worker-keeps c i worker lp (strategies_of i) name) title)
      before input rest s t h
deploy_workers-IsListed c title before input rest s t (inr (inr (inl h))) =
    listed c mdex (mdex_round c title)
      (λ i.
        mdex_round-ends (rules c (λ vaults. Unit)) i
          (λ worker lp. record_worker-lists c i worker lp (strategies_of i))
          (read_latest_nonce-Vaults c (λ vaults. Unit)) title)
      (λ i name.
        mdex_round-ends (rules c (IsListed name)) i
          (λ worker lp. record_worker-keeps c i worker lp (strategies_of i) name)
          (read_latest_nonce-Vaults c (IsListed name)) title)
      before input rest s t h
deploy_workers-IsListed c title before input rest s t (inr (inr (inr (inl h)))) =
    listed c tomb (tomb_round c title)
      (λ i.
        tomb_round-ends (rules c (λ vaults. Unit)) i
          (λ worker lp. record_worker-lists c i worker lp (strategies_of i)) title)
      (λ i name.
        tomb_round-ends (rules c (IsListed name)) i
          (λ worker lp. record_worker-keeps c i worker lp (strategies_of i) name) title)
      before input rest s t h
deploy_workers-IsListed c title before input rest s t (inr (inr (inr (inr h)))) =
    listed c spookyswap (spookyswap_round c title)
      (λ i.
        spookyswap_round-ends (rules c (λ vaults. Unit)) i
          (λ worker lp. record_worker-lists c i worker lp (strategies_of i)) title)
      (λ i name.
        spookyswap_round-ends (rules c (IsListed name)) i
          (λ worker lp. record_worker-keeps c i worker lp (strategies_of i) name) title)
      before input rest s t h

-- If the script for delta neutral workers on PancakeSwap, Biswap or SpookySwap returns, then the
-- worker of every input is listed in the configuration.
pub deploy_delta_workers-IsListed :
    (c : Chain) (title : String) (before : List WorkerInput) (input : WorkerInput)
    (rest : List WorkerInput) (s t : State)
    → (delta_neutral_pcs_worker c title (before ++ (input ∷ rest)) s ≡ (t, ok tt))
      ⊎ (delta_neutral_bs_worker c title (before ++ (input ∷ rest)) s ≡ (t, ok tt))
      ⊎ (delta_neutral_spooky_worker c title (before ++ (input ∷ rest)) s ≡ (t, ok tt))
    → IsListed input.worker_name t.helper.config.vaults
unfolding delta_neutral_pcs_worker delta_neutral_bs_worker delta_neutral_spooky_worker
deploy_delta_workers-IsListed c title before input rest s t (inl h) =
    delta-IsListed c delta_pancakeswap (delta_pcs_round c title)
      (λ i. delta_pcs_round-ends (rules c (λ vaults. Unit)) i (record_worker-lists c i.base) title)
      (λ i name.
        delta_pcs_round-ends (rules c (IsListed name)) i
          (λ worker lp strategies. record_worker-keeps c i.base worker lp strategies name) title)
      before input rest s t h
deploy_delta_workers-IsListed c title before input rest s t (inr (inl h)) =
    delta-IsListed c delta_biswap (delta_bs_round c title)
      (λ i. delta_bs_round-ends (rules c (λ vaults. Unit)) i (record_worker-lists c i.base) title)
      (λ i name.
        delta_bs_round-ends (rules c (IsListed name)) i
          (λ worker lp strategies. record_worker-keeps c i.base worker lp strategies name) title)
      before input rest s t h
deploy_delta_workers-IsListed c title before input rest s t (inr (inr h)) =
    delta-IsListed c delta_spookyswap (delta_spooky_round c title)
      (λ i.
        delta_spooky_round-ends (rules c (λ vaults. Unit)) i (record_worker-lists c i.base) title)
      (λ i name.
        delta_spooky_round-ends (rules c (IsListed name)) i
          (λ worker lp strategies. record_worker-keeps c i.base worker lp strategies name) title)
      before input rest s t h

-- If the script for CakeMaxi workers returns, then the worker of every input is listed in the
-- configuration.
pub cakemaxi_workers_02-IsListed :
    (c : Chain) (network title : String) (before : List CakeMaxiWorkerInput)
    (input : CakeMaxiWorkerInput) (rest : List CakeMaxiWorkerInput) (s t : State)
    → cakemaxi_workers_02 c network title (before ++ (input ∷ rest)) s ≡ (t, ok tt)
    → IsListed input.worker_name t.helper.config.vaults
unfolding cakemaxi_workers_02
cakemaxi_workers_02-IsListed c network title before input rest s t returned =
    let complete =
      λ (u : State) (n : CakeMaxiWorkerInput). cake_maxi_params c.parse_ether network u.config n in
    let (i, here, named) =
      rounds-list complete (λ i. i.worker_name) (cake_maxi_round c title)
        (λ i. cake_maxi_round-ends (rules c (λ vaults. Unit)) i (record_cake_maxi-lists c i) title)
        (λ i name.
          cake_maxi_round-ends (rules c (IsListed name)) i
            (λ worker worker_config lp. record_cake_maxi-keeps c i worker worker_config lp name)
            title)
        before input rest s t returned in
    rw (← cake_maxi_params-name c.parse_ether network s.config input here) named
