-- ===== src/Commitments/Merkle.antt =====
-- Merkle trees: the root, the proof of inclusion of one leaf, and its verification.
-- Code: packages/commitments/src/index.ts (`nextLevel`, `merkleRoot`, `createProof`,
-- `verifyProof`), packages/schemas/src/m6.ts (`MerkleProof`).
pub mod Laws
pub mod Binding
use alpha_proof.Base.{
  ℕ, zero, suc, ◌/◌, ◌%◌, ◌^◌, ◌+◌, ◌-◌, Bool, true, false, not, ◌&&◌, ◌||◌, Option, none, some,
  List, [], ◌∷◌, ltb, leb, ◌==◌, ◌!=◌, if◌then◌else◌, length, get_elem?, Result, ok, err, ◌>>=◌,
  ◌>>◌, throw_if, or_throw, commitment_invalid, schema_rejected, out_of_fuel,
}
use alpha_proof.Accounting.State.{Ident, Hash}
use alpha_proof.Commitments.Hashing.{Hashing, node_hash}

pub data Side : Type 0 where
  left right : Side

pub record Sibling : Type 0 where
  pub side : Side
  pub hash : Hash

pub record MerkleProof : Type 0 where
  pub batch_id : Ident
  pub leaf_hash : Hash
  pub leaf_index : ℕ
  pub leaf_count : ℕ
  pub siblings : List Sibling
  pub root : Hash

-- `Number.MAX_SAFE_INTEGER + 1`: a schema's integer is a safe one.
abbrev pub safe_limit : ℕ
safe_limit = 2 ^ 53

-- `MerkleProof.parse`, on the numbers.
unfoldable pub parse_proof : MerkleProof → Result MerkleProof
parse_proof proof = do
  throw_if
      (not (
        ltb proof.leaf_index safe_limit
        && ltb 0 proof.leaf_count
        && ltb proof.leaf_count safe_limit))
      schema_rejected
  ok proof

-- One pass over pairs; a last one without a partner is paired with itself.
unfoldable pub next_level : Hashing → List Hash → List Hash
next_level H [] = []
next_level H (a ∷ []) = node_hash H a a ∷ []
next_level H (a ∷ b ∷ rest) = node_hash H a b ∷ next_level H rest

-- `while (level.length > 1) level = nextLevel(level); return level[0]`
unfoldable pub root_loop : Hashing → ℕ → List Hash → Result Hash
root_loop H fuel [] = err commitment_invalid
root_loop H fuel (a ∷ []) = ok a
root_loop H zero (a ∷ b ∷ rest) = err out_of_fuel
root_loop H (suc fuel) (a ∷ b ∷ rest) = root_loop H fuel (next_level H (a ∷ b ∷ rest))

-- As many rounds as there are hashes are enough.
unfoldable pub merkle_root : Hashing → List Hash → Result Hash
merkle_root H hashes = do
  throw_if (length hashes == 0) commitment_invalid
  root_loop H (length hashes) hashes

abbrev pub sibling_index : ℕ → ℕ
sibling_index index = if index % 2 == 0 then index + 1 else index - 1

abbrev pub sibling_side : ℕ → Side
sibling_side index = if index % 2 == 0 then Side.right else Side.left

-- `a ?? b`
abbrev or_else : Option Hash → Option Hash → Option Hash
or_else none b = b
or_else (some a) b = some a

-- `level[siblingIndex] ?? level[index]!`
unfoldable pub sibling_of : List Hash → ℕ → Result Sibling
sibling_of level index = do
  hash ←
      or_throw (or_else (get_elem? level (sibling_index index)) (get_elem? level index))
        commitment_invalid
  ok (record { side = sibling_side index; hash = hash })

-- The loop of `createProof`: the siblings of the rounds, and the last level's one hash.
unfoldable pub climb : Hashing → ℕ → List Hash → ℕ → Result (List Sibling × Hash)
climb H fuel [] index = err commitment_invalid
climb H fuel (a ∷ []) index = ok ([], a)
climb H zero (a ∷ b ∷ rest) index = err out_of_fuel
climb H (suc fuel) (a ∷ b ∷ rest) index = do
  sibling ← sibling_of (a ∷ b ∷ rest) index
  above ← climb H fuel (next_level H (a ∷ b ∷ rest)) (index / 2)
  ok (sibling ∷ above.0, above.1)

unfoldable pub create_proof : Hashing → Ident → List Hash → ℕ → Result MerkleProof
create_proof H batch_id hashes leaf_index = do
  throw_if (leb (length hashes) leaf_index) commitment_invalid
  above ← climb H (length hashes) hashes leaf_index
  leaf ← or_throw (get_elem? hashes leaf_index) commitment_invalid
  parse_proof (record {
    batch_id = batch_id;
    leaf_hash = leaf;
    leaf_index = leaf_index;
    leaf_count = length hashes;
    siblings = above.0;
    root = above.1;
  })

abbrev pub combine : Hashing → Side → Hash → Hash → Hash
combine H Side.left sibling value = node_hash H sibling value
combine H Side.right sibling value = node_hash H value sibling

-- The loop of `verifyProof`.
abbrev pub fold_siblings : Hashing → List Sibling → Hash → Hash
fold_siblings H [] value = value
fold_siblings H (s ∷ siblings) value = fold_siblings H siblings (combine H s.side s.hash value)

-- `true` is the only value that the code returns.
unfoldable pub verify_proof : Hashing → MerkleProof → Result (Unit {0})
verify_proof H input = do
  proof ← parse_proof input
  throw_if (fold_siblings H proof.siblings proof.leaf_hash != proof.root) commitment_invalid
