-- ===== src/Commitments/Hashing.antt =====
-- The hash function, a parameter, and the hash of an inner node of the tree.
-- Code: packages/commitments/src/index.ts (`nodeHash`, `concatBytes`),
-- packages/domain/src/index.ts (`rawBytesHash`, which is viem's keccak256).
use alpha_proof.Base.{ℕ, List, ◌++◌}
use alpha_proof.Accounting.State.{Hash}

abbrev pub Bytes : Type 0
Bytes = List ℕ

-- What the code takes from viem and the platform, and the encoded text of the node's domain.
pub record Hashing : Type 0 where
  pub keccak256 : Bytes → Hash
  pub hex_to_bytes : Hash → Bytes
  pub node_domain : Bytes

unfoldable pub node_hash : Hashing → Hash → Hash → Hash
node_hash H left right =
    H.keccak256 (H.node_domain ++ (H.hex_to_bytes left ++ H.hex_to_bytes right))
