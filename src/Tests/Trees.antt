-- ===== src/Tests/Trees.antt =====
-- Trees and airdrops over a small hash in place of Keccak-256.
use Prim.Native.Nat.{◌+◌, ◌%◌}
use bsc_alpaca_contract.Prelude.{
  ℕ, ◌≤◌, String, Bool, true, false, ◌||◌, List, [], ◌∷◌, some, ◌≡◌, refl, ap, sym, ◌∙◌, arith, ok,
  throw, length, map, All, Bool-cases, inl, inr, codes_eq, codes_eq_iff,
}
use bsc_alpaca_contract.Sort.{contains}
use bsc_alpaca_contract.Sort.Codes.{codes_ord}
use bsc_alpaca_contract.Sort.Ascending.{SameElements}
use bsc_alpaca_contract.Merkle.Bytes.{
  Buffer, IsBytes, to_hex, from_hex, with_prefix, without_prefix, from_hex-to_hex,
}
use bsc_alpaca_contract.Merkle.Hash.{sort_and_concat, sort_and_concat_comm}
use bsc_alpaca_contract.Merkle.Tree
use bsc_alpaca_contract.Merkle.Tree.{MerkleTree}
use bsc_alpaca_contract.Merkle.Tree.Hex.{decode, get_hex_proof-decode}
use bsc_alpaca_contract.Merkle.Tree.Index.{Every}
use bsc_alpaca_contract.Merkle.Tree.Proof.{fold_proof}
use bsc_alpaca_contract.Merkle.Tree.Build.{
  new_order_irrelevant, proof_complete, proof_absent, length-get_proof-le, get_proof-IsBytes,
}

unfoldable pub sum : Buffer → ℕ
sum [] = 0
sum (b ∷ bs) = b + sum bs

unfoldable pub toy_keccak : Buffer → Buffer
unfolding sum
toy_keccak b = (sum b % 251) ∷ []

abbrev pub toy_hex : Buffer → String
toy_hex b = with_prefix (to_hex b)

pub toy_keccak-IsBytes : (b : Buffer) → IsBytes (toy_keccak b)
unfolding toy_keccak
toy_keccak-IsBytes b = (omega arith, tt)

pub toy_hex-injective : (b c : Buffer) → IsBytes b → IsBytes c → toy_hex b ≡ toy_hex c → b ≡ c
toy_hex-injective b c b_bytes c_bytes e =
    let p : to_hex b ≡ to_hex c = ap without_prefix e in
    sym (from_hex-to_hex b b_bytes) ∙ ap from_hex p ∙ from_hex-to_hex c c_bytes

All-Every : (l : List Buffer) → All IsBytes l → Every IsBytes l
unfolding contains
All-Every [] h x e = cc
All-Every (b ∷ l) (here, later) x e = elim (Bool-cases (codes_eq b x)) [
  | inl same ↦ let p = (codes_eq_iff b x).0 same in rw p at here
  | inr other ↦ All-Every l later x (rw other at e)
]

abbrev given : List Buffer
given = (3 ∷ []) ∷ (1 ∷ []) ∷ (2 ∷ []) ∷ (1 ∷ []) ∷ []

given-Every : Every IsBytes given
given-Every =
    All-Every given
      ((omega arith, tt), ((omega arith, tt), ((omega arith, tt), ((omega arith, tt), tt))))

given-two : contains (2 ∷ []) given ≡ true
unfolding contains codes_eq
given-two = refl

given-four : contains (4 ∷ []) given ≡ false
unfolding contains codes_eq
given-four = refl

proof_complete_example :
    (tree : MerkleTree) × (proof : List Buffer) × (root : Buffer) × (Tree.new toy_hex toy_keccak
        given
      ≡ ok tree)
    × (Tree.get_proof toy_hex tree (2 ∷ []) ≡ ok proof)
    × (Tree.get_root tree ≡ some root)
    × (fold_proof toy_keccak (some (2 ∷ [])) proof ≡ some root)
proof_complete_example =
    proof_complete toy_hex toy_keccak toy_hex-injective given (2 ∷ []) given-Every given-two

toy_complete :
    (tree : MerkleTree) × (proof : List Buffer) × (root : Buffer) × (Tree.new toy_hex toy_keccak
        given
      ≡ ok tree)
    × (Tree.get_proof toy_hex tree (2 ∷ []) ≡ ok proof)
    × (Tree.get_root tree ≡ some root)
    × (fold_proof toy_keccak (some (2 ∷ [])) proof ≡ some root)
toy_complete =
    proof_complete toy_hex toy_keccak toy_hex-injective given (2 ∷ []) given-Every given-two

-- The tree that is built, and its proof.
abbrev toy_tree : MerkleTree
toy_tree = toy_complete.0

toy_tree-built : Tree.new toy_hex toy_keccak given ≡ ok toy_tree
toy_tree-built = toy_complete.3

abbrev toy_proof : List Buffer
toy_proof = toy_complete.1

toy_proof-found : Tree.get_proof toy_hex toy_tree (2 ∷ []) ≡ ok toy_proof
toy_proof-found = toy_complete.4

proof_absent_example :
    Tree.get_proof toy_hex toy_tree (4 ∷ []) ≡ throw "Element does not exist in Merkle tree"
proof_absent_example =
    proof_absent toy_hex toy_keccak toy_hex-injective given (4 ∷ []) given-Every (omega arith, tt)
      given-four toy_tree-built

length-get_proof-le_example : length toy_proof ≤ 2
length-get_proof-le_example =
    length-get_proof-le toy_hex toy_keccak toy_hex-injective given (2 ∷ []) 2 (omega arith)
      given-Every given-two toy_tree-built toy_proof-found

abbrev twice : List Buffer
twice = (2 ∷ []) ∷ (1 ∷ []) ∷ (2 ∷ []) ∷ []

abbrev once : List Buffer
once = (1 ∷ []) ∷ (2 ∷ []) ∷ []

or-twice : (p q : Bool) → (p || (q || (p || false))) ≡ (q || (p || false))
or-twice true true = refl
or-twice true false = refl
or-twice false true = refl
or-twice false false = refl

twice-SameElements : SameElements twice once
unfolding contains
twice-SameElements a = or-twice (codes_eq (2 ∷ []) a) (codes_eq (1 ∷ []) a)

new_order_irrelevant_example : Tree.new toy_hex toy_keccak twice ≡ Tree.new toy_hex toy_keccak once
new_order_irrelevant_example = new_order_irrelevant toy_hex toy_keccak twice once twice-SameElements

get_hex_proof-decode_example :
    (texts : List String) × (Tree.get_hex_proof toy_hex toy_tree (2 ∷ []) ≡ ok texts)
    × (map decode texts ≡ toy_proof)
get_hex_proof-decode_example = get_hex_proof-decode toy_hex toy_tree (2 ∷ []) toy_proof-found (
    get_proof-IsBytes toy_hex toy_keccak toy_hex-injective given (2 ∷ []) toy_keccak-IsBytes
      given-Every given-two toy_tree-built toy_proof-found)

sort_and_concat_comm_example :
    sort_and_concat (2 ∷ []) (1 ∷ 7 ∷ []) ≡ sort_and_concat (1 ∷ 7 ∷ []) (2 ∷ [])
sort_and_concat_comm_example = sort_and_concat_comm (2 ∷ []) (1 ∷ 7 ∷ [])
