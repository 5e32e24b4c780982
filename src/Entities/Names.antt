-- ===== src/Entities/Names.antt =====
-- `mapWorkers` finds the workers by their names.
use bsc_alpaca_contract.Prelude.{
  String, ◌≡◌, refl, ap₂, List, [], ◌∷◌, map, Option, none, some, ok, >>=-eq-ok, ok_injective, ap,
  require, traverse, find, find-holds, ◌===◌, eq_iff,
}
use bsc_alpaca_contract.Config.{Config, WorkersEntity}
use bsc_alpaca_contract.Entities.{all_workers, map_worker, map_workers}

map_worker-name :
    (workers : List WorkersEntity) (name : String) {worker : WorkersEntity}
    → map_worker workers name ≡ ok worker
    → worker.name ≡ name
unfolding map_worker
map_worker-name workers name {worker} made = (eq_iff worker.name name).0 (
    find-holds (λ w. w.name === name) workers
      (required (find (λ w. w.name === name) workers) _ made))
  where
    required :
        (o : Option WorkersEntity) (message : String)
        → require message o ≡ ok worker
        → o ≡ some worker
    required none message h = cc
    required (some w) message h = ap some (ok_injective h)

traverse-names :
    (workers : List WorkersEntity) (names : List String) {mapped : List WorkersEntity}
    → traverse (map_worker workers) names ≡ ok mapped
    → map (λ w. w.name) mapped ≡ names
traverse-names workers [] made = let p = ok_injective made in rw (← p) refl
traverse-names workers (name ∷ names) made =
    let (worker, here, made₁) = >>=-eq-ok (map_worker workers name) _ made in
    let (rest, later, made₂) = >>=-eq-ok (traverse (map_worker workers) names) _ made₁ in
    let p = ok_injective made₂ in
    rw (← p) (
      ap₂ (λ (x : String) (xs : List String). x ∷ xs) (map_worker-name workers name here)
        (traverse-names workers names later))

-- If `mapWorkers` returns, the names of the workers that it returns are the names that it was given,
-- in order.
pub map_workers-names :
    (config : Config) (names : List String) (workers : List WorkersEntity)
    → map_workers config names ≡ ok workers
    → map (λ w. w.name) workers ≡ names
unfolding map_workers
map_workers-names config names workers made = traverse-names (all_workers config.vaults) names made
