-- ===== src/Merkle/Hash.antt =====
-- `combinedHash` and `sortAndConcat` of utils/merkle-tree.ts, over the hash of ethereumjs-util.
use mathlib.Core.List.{flatten}
use bsc_alpaca_contract.Prelude.{◌≡◌, refl, ap, [], ◌∷◌, Option, none, some, arith}
use bsc_alpaca_contract.Sort.{sort}
use bsc_alpaca_contract.Sort.Codes.{codes_ord}
use bsc_alpaca_contract.Merkle.Bytes.{Buffer}

-- `Buffer.concat([...args].sort(Buffer.compare))`
unfoldable pub sort_and_concat : Buffer → Buffer → Buffer
unfolding sort
sort_and_concat first second = flatten (sort (first ∷ second ∷ []))

-- The two buffers are put in order, so it does not matter which comes first.
pub sort_and_concat_comm : (a b : Buffer) → sort_and_concat a b ≡ sort_and_concat b a
unfolding sort_and_concat
sort_and_concat_comm a b = ground (
  arith,
  codes_ord.less_total a b,
  codes_ord.less_total b a,
  codes_ord.same_iff a b,
  codes_ord.same_iff b a,
  codes_ord.less_trans a b a,
  codes_ord.less_irrefl a,
)

module _ (keccak256 : Buffer → Buffer) where
  -- a missing buffer is `undefined`
  unfoldable pub combined_hash : Option Buffer → Option Buffer → Option Buffer
  combined_hash none second = second
  combined_hash (some first) none = some first
  combined_hash (some first) (some second) = some (keccak256 (sort_and_concat first second))

  pub combined_hash_comm : (a b : Option Buffer) → combined_hash a b ≡ combined_hash b a
  unfolding combined_hash
  combined_hash_comm none none = refl
  combined_hash_comm none (some b) = refl
  combined_hash_comm (some a) none = refl
  combined_hash_comm (some a) (some b) = ap (λ c. some (keccak256 c)) (sort_and_concat_comm a b)

  -- A buffer combined with another, or with nothing, is a buffer.
  pub combined_hash-some :
      (a : Buffer) (b : Option Buffer) → (c : Buffer) × (combined_hash (some a) b ≡ some c)
  unfolding combined_hash
  combined_hash-some a none = (a, refl)
  combined_hash-some a (some b) = (keccak256 (sort_and_concat a b), refl)
