-- ===== src/Merkle/BalanceMap/Claims.antt =====
-- Every claim that `parseBalanceMap` publishes verifies against the published root.
use bsc_alpaca_contract.Prelude.{
  ℕ, suc, ◌+◌, String, ◌≡◌, refl, ap, sym, ◌∙◌, true, List, [], ◌∷◌, map, Option, none, some, arith,
  ok, >>=-eq-ok, ok_injective, get_elem?, ◌===◌, eq_iff, Dict, lookup, insert, lookup-insert, keys,
  Bool-cases, inl, inr,
}
use mathlib.Core.Option.{some-injective}
use native.Mathlib.Nat.{add-zero, add_assoc}
use bsc_alpaca_contract.Sort.{sort}
use bsc_alpaca_contract.Sort.Codes.{text_ord}
use bsc_alpaca_contract.Merkle.Bytes.{Buffer}
use bsc_alpaca_contract.Merkle.Tree
use bsc_alpaca_contract.Merkle.Tree.{MerkleTree}
use bsc_alpaca_contract.Merkle.Tree.Hex.{decode}
use bsc_alpaca_contract.Merkle.BalanceTree
use bsc_alpaca_contract.Merkle.BalanceTree.{Balance, Hashes, verify_proof}
use bsc_alpaca_contract.Merkle.BalanceTree.Verify.{IsSound, rows_verify}
use bsc_alpaca_contract.Merkle.BalanceMap.{
  Ethers, Balances, Entry, Claim, MerkleDistributorInfo, in_new_format, data_by_address, found,
  rows_of, claims_from, token_total, parse_balance_map,
}

one-add : (j : ℕ) → 1 + j ≡ suc j
one-add j = omega arith

pub found-eq-ok {ℓ} : {A : Type ℓ} (o : Option A) {a : A} → found o ≡ ok a → o ≡ some a
found-eq-ok none h = cc
found-eq-ok (some b) h = ap some (ok_injective h)

pub rows_of-cons :
    (e : Ethers) (by_address : Dict Entry) (address : String) (addresses : List String)
    {rows : List Balance}
    → rows_of e by_address (address ∷ addresses) ≡ ok rows
    → (entry : Entry) × (rest : List Balance) × (lookup address by_address ≡ some entry)
      × (rows_of e by_address addresses ≡ ok rest)
      × (rows ≡ record { account = address; amount = entry.amount } ∷ rest)
unfolding rows_of
rows_of-cons e by_address address addresses made =
    let (entry, at_key, made₁) = >>=-eq-ok (found (lookup address by_address)) _ made in
    let (rest, from_rest, made₂) = >>=-eq-ok (rows_of e by_address addresses) _ made₁ in
    (entry, rest, found-eq-ok _ at_key, from_rest, sym (ok_injective made₂))

module _ (e : Ethers) (by_address : Dict Entry) (tree : MerkleTree) (balances : List Balance) where
  -- A claim stands for a row of the tree, and holds the proof of that row.
  record IsClaimOf (address : String) (claim : Claim) : Type 0 where
    row : Balance
    at_index : get_elem? balances claim.index ≡ some row
    account : row.account ≡ address
    amount : claim.amount ≡ e.to_hex_string row.amount
    proved : BalanceTree.get_proof e.hashes tree claim.index address row.amount ≡ ok claim.proof

  abbrev AreClaims : Dict Claim → Type 0
  AreClaims claims =
      (address : String) (claim : Claim)
      → lookup address claims ≡ some claim
      → IsClaimOf address claim

  abbrev next_claim : String → ℕ → Entry → List String → Claim
  next_claim address index entry proof = record {
    index = index;
    amount = e.to_hex_string entry.amount;
    proof = proof;
    flags = entry.flags;
  }

  insert-AreClaims :
      (address : String) (claim : Claim) (memo : Dict Claim)
      → IsClaimOf address claim
      → AreClaims memo
      → AreClaims (insert address claim memo)
  insert-AreClaims address claim memo new good a c h = elim (Bool-cases (address === a)) [
    | inl same ↦
        let p = (eq_iff address a).0 same in
        let q : claim ≡ c =
          some-injective claim c (sym (rw (lookup-insert address a claim memo, same) refl) ∙ h) in
        rw (← p, ← q) new
    | inr other ↦ good a c (sym (rw (lookup-insert address a claim memo, other) refl) ∙ h)
  ]

  claims_from-nil :
      (index : ℕ) (memo : Dict Claim) {claims : Dict Claim}
      → claims_from e by_address tree index [] memo ≡ ok claims
      → memo ≡ claims
  unfolding claims_from
  claims_from-nil index memo made = ok_injective made

  claims_from-cons :
      (index : ℕ) (address : String) (addresses : List String) (memo : Dict Claim) (entry : Entry)
      {claims : Dict Claim}
      → lookup address by_address ≡ some entry
      → claims_from e by_address tree index (address ∷ addresses) memo ≡ ok claims
      → (proof : List String) × (BalanceTree.get_proof e.hashes tree index address entry.amount
          ≡ ok proof)
        × (claims_from e by_address tree
              (index + 1)
              addresses
              (insert address (next_claim address index entry proof) memo)
            ≡ ok claims)
  unfolding claims_from
  claims_from-cons index address addresses memo entry at_key made =
      >>=-eq-ok (BalanceTree.get_proof e.hashes tree index address entry.amount) _
        (rw at_key at made)

  claims_from-AreClaims :
      (index : ℕ) (addresses : List String) (rows : List Balance) (memo : Dict Claim)
      {claims : Dict Claim}
      → rows_of e by_address addresses ≡ ok rows
      → ((j : ℕ) (b : Balance)
          → get_elem? rows j ≡ some b
          → get_elem? balances (index + j) ≡ some b)
      → AreClaims memo
      → claims_from e by_address tree index addresses memo ≡ ok claims
      → AreClaims claims
  claims_from-AreClaims index [] rows memo from_rows place good made =
      let p = claims_from-nil index memo made in rw p at good
  claims_from-AreClaims index (address ∷ addresses) rows memo from_rows place good made =
      let (entry, rest, at_key, from_rest, split) =
        rows_of-cons e by_address address addresses from_rows in
      let (proof, proved, later) =
        claims_from-cons index address addresses memo entry at_key made in
      let row : Balance = record { account = address; amount = entry.amount } in
      let here : get_elem? balances (index + 0) ≡ some row = place 0 row (rw split) in
      let claim_here : IsClaimOf address (next_claim address index entry proof) = record {
        row = row;
        at_index = rw add-zero at here;
        account = refl;
        amount = refl;
        proved = proved;
      } in
      claims_from-AreClaims (index + 1) addresses rest
        (insert address (next_claim address index entry proof) memo) from_rest
        (λ j b h. rw (add_assoc index 1 j, one-add j) (place (suc j) b (rw split h)))
        (insert-AreClaims address (next_claim address index entry proof) memo claim_here good) later

-- The parts of a successful run.
parse_balance_map-parts :
    (e : Ethers) (balances : Balances) {info : MerkleDistributorInfo}
    → parse_balance_map e balances ≡ ok info
    → (by_address : Dict Entry) × (rows : List Balance) × (tree : MerkleTree) × (root : String)
      × (rows_of e by_address (sort (keys by_address)) ≡ ok rows)
      × (BalanceTree.new e.hashes rows ≡ ok tree)
      × (claims_from e by_address tree 0 (sort (keys by_address)) [] ≡ ok info.claims)
      × (BalanceTree.get_hex_root e.hashes tree ≡ some root)
      × (info.merkle_root ≡ root)
unfolding parse_balance_map
parse_balance_map-parts e balances {info} made =
    let (by_address, _, made₁) = >>=-eq-ok (data_by_address e [] (in_new_format balances)) _ made in
    let (rows, from_rows, made₂) =
      >>=-eq-ok (rows_of e by_address (sort (keys by_address))) _ made₁ in
    let (tree, built, made₃) = >>=-eq-ok (BalanceTree.new e.hashes rows) _ made₂ in
    let (claims, claimed, made₄) =
      >>=-eq-ok (claims_from e by_address tree 0 (sort (keys by_address)) []) _ made₃ in
    let (total, _, made₅) =
      >>=-eq-ok (token_total e by_address 0 (sort (keys by_address))) _ made₄ in
    let (root, top, made₆) = >>=-eq-ok (found (BalanceTree.get_hex_root e.hashes tree)) _ made₅ in
    let p = ok_injective made₆ in
    (
      by_address,
      rows,
      tree,
      root,
      from_rows,
      built,
      claimed ∙ ap (λ i. ok i.claims) p,
      found-eq-ok _ top,
      sym (ap (λ i. i.merkle_root) p),
    )

get_hex_root-some :
    (h : Hashes) (tree : MerkleTree) {root : Buffer}
    → Tree.get_root tree ≡ some root
    → BalanceTree.get_hex_root h tree ≡ some (h.buffer_to_hex root)
unfolding BalanceTree.get_hex_root
get_hex_root-some h tree top = rw (top, BalanceTree.get_hex_root) refl

-- A tree is built only from rows that were hashed.
new-nodes :
    (h : Hashes) (rows : List Balance) {tree : MerkleTree}
    → BalanceTree.new h rows ≡ ok tree
    → (nodes : List Buffer) × (BalanceTree.nodes_from h 0 rows ≡ ok nodes)
unfolding BalanceTree.new
new-nodes h rows built =
    let (nodes, hashed, _) = >>=-eq-ok (BalanceTree.nodes_from h 0 rows) _ built in (nodes, hashed)

not_in_empty : (address : String) (claim : Claim) → lookup address [] ≡ some claim → ⊥
unfolding lookup
not_in_empty address claim h = cc

-- If `parseBalanceMap` succeeds, each claim that it publishes is for a number of which
-- `amount` is the text, and its proof, decoded, verifies that number for the claim's address and
-- index against the buffer whose text is the published root. Keccak-256 is assumed to give bytes,
-- and `bufferToHex` to tell buffers of bytes apart.
pub claims_verify :
    (e : Ethers) (balances : Balances) (info : MerkleDistributorInfo) (address : String)
    (claim : Claim)
    → IsSound e.hashes
    → parse_balance_map e balances ≡ ok info
    → lookup address info.claims ≡ some claim
    → (amount : ℕ) × (root : Buffer) × (claim.amount ≡ e.to_hex_string amount)
      × (info.merkle_root ≡ e.hashes.buffer_to_hex root)
      × (verify_proof e.hashes claim.index address amount (map decode claim.proof) root ≡ ok true)
claims_verify e balances info address claim sound made at_address =
    let (by_address, rows, tree, hex, from_rows, built, claimed, top, published) =
      parse_balance_map-parts e balances made in
    let good =
      claims_from-AreClaims e by_address tree rows 0 (sort (keys by_address)) rows [] from_rows
        (λ j b h. let p : 0 + j ≡ j = omega arith in rw p h) (λ a c h. absurd (not_in_empty a c h))
        claimed address claim at_address in
    let (nodes, hashed) = new-nodes e.hashes rows built in
    let (tree₁, texts, root, built₁, proved, top₁, verified) =
      rows_verify e.hashes rows nodes claim.index good.row sound hashed good.at_index in
    let same_tree = ok_injective (sym built ∙ built₁) in
    let proved_here : BalanceTree.get_proof e.hashes tree claim.index address good.row.amount
        ≡ ok texts =
      rw (same_tree, ← good.account) proved in
    let same_texts = ok_injective (sym good.proved ∙ proved_here) in
    let hex_root = get_hex_root-some e.hashes tree₁ top₁ in
    let same_root =
      some-injective hex (e.hashes.buffer_to_hex root) (sym top ∙ rw same_tree hex_root) in
    (
      good.row.amount,
      root,
      good.amount,
      published ∙ same_root,
      rw (same_texts, ← good.account) verified,
    )
