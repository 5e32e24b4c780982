-- ===== src/Converter/Found.antt =====
-- Validation and conversion, which are two passes over the inputs, are one search for each input.
use Prim.Native.String.{◌++◌ as str_append}
use bsc_alpaca_contract.Prelude.{
  guard, not, Bool-cases, ◌===◌, String, List, [], ◌∷◌, Result, ok, throw, ◌>>=◌, ◌>>◌, require,
  traverse, find, find-append, ◌≡◌, refl, sym, ◌∙◌, ap, ◌⊎◌, inl, inr, Option-cases,
}
use bsc_alpaca_contract.Address.{compare}
use bsc_alpaca_contract.Config.{Config, VaultsEntity}
use bsc_alpaca_contract.Entities.{all_workers}
use bsc_alpaca_contract.Converter.{
  find_creditor, validate_creditor_name, convert_creditor_name, convert_creditor_name_to_address,
  for_each, is_some, convert_all, validate_delta_symbol, convert_delta_symbol,
  convert_delta_symbol_to_obj, validate_vault, convert_vault, convert_addresses_to_vaults,
  validated_worker, find_worker, validate_worker, convert_worker, convert_addresses_to_workers,
}

then-bind {ℓ κ} :
    {A : Type ℓ} {B : Type κ} (m : Result (Unit {0})) (n : Result A) (k : A → Result B)
    → (m >> n) >>= k ≡ m >> (n >>= k)
then-bind (ok u) n k = refl
then-bind (throw e) n k = refl

module _ {A : Type 0} (validate : String → Result (Unit {0}))
    (convert one : String → Result A) where
  -- On this input, both passes and the one pass succeed, or the validation throws what the one
  -- pass throws.
  abbrev Agree : String → Type 0
  Agree s =
      ((a : A) × (validate s ≡ ok tt) × (convert s ≡ ok a) × (one s ≡ ok a))
      ⊎ ((e : String) × (validate s ≡ throw e) × (one s ≡ throw e))

  convert_all-traverse :
      (inputs : List String)
      → ((s : String) → Agree s)
      → convert_all validate convert inputs ≡ traverse one inputs
  convert_all-traverse [] agree = refl
  convert_all-traverse (s ∷ inputs) agree = elim (agree s) [
    | inl (a, valid, converted, passed) ↦
        let rest = convert_all-traverse inputs agree in
        let k = λ (ys : List A). ok (a ∷ ys) in
        rw (valid, converted, passed)
          (sym (then-bind (for_each validate inputs) (traverse convert inputs) k)
            ∙ ap (λ m. m >>= k) rest)
    | inr (e, invalid, failed) ↦ rw (invalid, failed) refl
  ]

module _ (config : Config) where
  -- `convertAddressesToVaults` gives for each address the first vault at that address. If an
  -- address has no vault, it throws for the first such address, with the validation's message.
  pub convert_addresses_to_vaults-traverse :
      (addresses : List String)
      → convert_addresses_to_vaults config addresses
        ≡ traverse
            (λ input.
              require
                (str_append "ERROR NOT FOUND VAULT ADDRESS :" input)
                (find (λ v. compare v.address input) config.vaults))
            addresses
  unfolding convert_addresses_to_vaults validate_vault convert_vault
  convert_addresses_to_vaults-traverse addresses =
      convert_all-traverse (validate_vault config) (convert_vault config) _ addresses λ input.
        elim (Option-cases (find (λ v. compare v.address input) config.vaults)) [
          | inl missing ↦
              inr (
                str_append "ERROR NOT FOUND VAULT ADDRESS :" input,
                rw missing refl,
                rw missing refl,
              )
          | inr (vault, there) ↦ inl (vault, rw there refl, rw there refl, rw there refl)
        ]

  -- `convertDeltaSymboltoObj` gives for each symbol the first delta neutral vault of that symbol.
  -- If a symbol has none, it throws for the first such symbol, with the validation's message.
  pub convert_delta_symbol_to_obj-traverse :
      (symbols : List String)
      → convert_delta_symbol_to_obj config symbols
        ≡ traverse
            (λ symbol.
              require
                (str_append "ERROR NOT FOUND VAULT ADDRESS :" symbol)
                (find (λ dlt. compare dlt.symbol symbol) config.delta_neutral_vaults))
            symbols
  unfolding convert_delta_symbol_to_obj validate_delta_symbol convert_delta_symbol
  convert_delta_symbol_to_obj-traverse symbols =
      convert_all-traverse (validate_delta_symbol config) (convert_delta_symbol config) _ symbols
        λ symbol.
          elim (Option-cases
            (find (λ dlt. compare dlt.symbol symbol) config.delta_neutral_vaults)) [
              | inl missing ↦ inr (
                str_append "ERROR NOT FOUND VAULT ADDRESS :" symbol,
                rw missing refl,
                rw missing refl,
              )
              | inr (vault, there) ↦ inl (vault, rw there refl, rw there refl, rw there refl)
            ]

  -- The two loops over the vaults are one search in all the workers.
  find_worker_all :
      (input : String) (vaults : List VaultsEntity)
      → find_worker config input vaults ≡ find (λ w. compare w.address input) (all_workers vaults)
  unfolding find_worker all_workers
  find_worker_all input [] = refl
  find_worker_all input (vault ∷ vaults) =
      rw
        (
          find-append (λ w. compare w.address input) vault.workers (all_workers vaults),
          find_worker_all input vaults,
        )
        refl

  validated_worker_some :
      (input : String) (vaults : List VaultsEntity)
      → validated_worker config input vaults ≡ is_some (find_worker config input vaults)
  unfolding find_worker validated_worker
  validated_worker_some input [] = refl
  validated_worker_some input (vault ∷ vaults) =
      elim (Option-cases (find (λ w. compare w.address input) vault.workers)) [
        | inl missing ↦
            let rest = validated_worker_some input vaults in
            rw (missing, validated_worker, rest) refl
        | inr (w, there) ↦ rw (there, validated_worker) refl
      ]

  -- `convertAddressesToWorkers` gives for each address the first worker at that address in the
  -- list of the workers of all vaults. If an address has none, it throws for the first such
  -- address, with the validation's message.
  pub convert_addresses_to_workers-traverse :
      (addresses : List String)
      → convert_addresses_to_workers config addresses
        ≡ traverse
            (λ input.
              require
                (str_append "ERROR NOT FOUND WORKER ADDRESS :" input)
                (find (λ w. compare w.address input) (all_workers config.vaults)))
            addresses
  unfolding convert_addresses_to_workers validate_worker convert_worker
  convert_addresses_to_workers-traverse addresses =
      convert_all-traverse (validate_worker config) (convert_worker config) _ addresses λ input.
        let one_search = find_worker_all input config.vaults in
        let by_loops = validated_worker_some input config.vaults in
        elim (Option-cases (find (λ w. compare w.address input) (all_workers config.vaults))) [
          | inl missing ↦ inr (
            str_append "ERROR NOT FOUND WORKER ADDRESS :" input,
            rw (by_loops, one_search, missing) refl,
            rw missing refl,
          )
          | inr (worker, there) ↦ inl (
            worker,
            rw (by_loops, one_search, there) refl,
            rw (by_loops, one_search, there) refl,
            rw there refl,
          )
        ]

module _ (config : Config) where
  -- Validation and conversion of one creditor's name at once.
  abbrev pub creditor_address : String → Result String
  creditor_address name = do
    result ← find_creditor config name config.creditors
    creditor ← require (str_append "ERROR Not found Creditor Input :" name) result
    guard (not (creditor.address === "")) "error: not found creditor config address"
    ok creditor.address

  creditor-Agree :
      (name : String)
      → Agree (validate_creditor_name config) (convert_creditor_name config) creditor_address name
  unfolding validate_creditor_name convert_creditor_name
  creditor-Agree name = elim (Option-cases config.creditors) [
    | inl missing ↦ inr ("TypeError", rw missing refl, rw missing refl)
    | inr (creditors, there) ↦ elim (Option-cases (find (λ o. compare o.name name) creditors)) [
      | inl unknown ↦ inr (
        str_append "ERROR Not found Creditor Input :" name,
        rw (there, unknown) refl,
        rw (there, unknown) refl,
      )
      | inr (creditor, known) ↦ elim (Bool-cases (creditor.address === "")) [
        | inl empty ↦ inr (
          "error: not found creditor config address",
          rw (there, known, empty) refl,
          rw (there, known, empty) refl,
        )
        | inr filled ↦ inl (
          creditor.address,
          rw (there, known, filled) refl,
          rw (there, known) refl,
          rw (there, known, filled) refl,
        )
      ]
    ]
  ]

  -- `convertCreditorNameToAddress` gives for each name the address of the first creditor of that
  -- name. It throws for the first name that has no creditor, or whose creditor has an empty address,
  -- and for the first name of all if the configuration has no list of creditors.
  pub convert_creditor_name_to_address-traverse :
      (names : List String)
      → convert_creditor_name_to_address config names ≡ traverse creditor_address names
  unfolding convert_creditor_name_to_address
  convert_creditor_name_to_address-traverse names =
      convert_all-traverse (validate_creditor_name config) (convert_creditor_name config)
        creditor_address names creditor-Agree
