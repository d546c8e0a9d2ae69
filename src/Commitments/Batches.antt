-- ===== src/Commitments/Batches.antt =====
-- Batches of audit events: building one, the chain of them, and their publication.
-- Code: packages/commitments/src/index.ts (`commitmentBatchHash`, `buildBatch`,
-- `assertBatchContinuity`, `verifyPublication`), packages/schemas/src/objects.ts
-- (`CommitmentBatch`), packages/schemas/src/m6.ts (`CommitmentLeafSet`,
-- `RegistryPublicationReceipt`).
pub mod Building
pub mod Partition
use alpha_proof.Base.{
  ℕ, zero, suc, ◌+◌, Bool, true, false, not, ◌&&◌, ◌||◌, Option, none, some, List, [], ◌∷◌, ◌==◌,
  ◌!=◌, leb, opt_eq, is_some, length, map, any, Result, ok, err, ◌>>=◌, ◌>>◌, throw_if, or_throw,
  for_each, batch_continuity, schema_rejected, provenance_splice, commitment_invalid,
  publication_reorged, when_some,
}
use alpha_proof.Accounting.State.{Ident, Hash}
use alpha_proof.Accounting.Check.Schema.{is_positive_uint}
use alpha_proof.Commitments.Hashing.{Hashing, Bytes}
use alpha_proof.Commitments.Merkle.{MerkleProof, merkle_root, create_proof}
use alpha_proof.Commitments.Audit.{
  AuditEvent, CommitmentLeaf, EventEncoding, check_audit_event, create_leaf,
}

pub data BatchStatus : Type 0 where
  pending submitted confirmed reorged : BatchStatus

-- The fields that identify a batch and its place; network, transaction and block as they are.
pub record CommitmentBatch : Type 0 where
  pub experiment_id : Ident
  pub batch_id : Ident
  pub first_sequence : ℕ
  pub last_sequence : ℕ
  pub root : Hash
  pub previous_batch_hash : Option Hash
  pub leaves_object_hash : Hash
  pub registry_network_id : Ident
  pub status : BatchStatus
  pub transaction_hash : Option Hash
  -- Whether the block is there, and is final.
  pub has_final_block : Bool

pub record LeafSet : Type 0 where
  pub batch_id : Ident
  pub first_sequence : ℕ
  pub last_sequence : ℕ
  pub leaves : List CommitmentLeaf

-- What the hashes of a batch are taken of: viem's ABI encoding, and canonical JSON.
pub record BatchEncoding : Type 0 where
  pub batch : CommitmentBatch → Bytes
  pub leaf_set : LeafSet → Bytes
  pub experiment : Ident → Bytes

abbrev is_confirmed : BatchStatus → Bool
is_confirmed BatchStatus.confirmed = true
is_confirmed _ = false

-- `CommitmentBatch.parse`
unfoldable pub batch_in_range : CommitmentBatch → Bool
batch_in_range batch =
    is_positive_uint batch.first_sequence
    && is_positive_uint batch.last_sequence
    && leb batch.first_sequence batch.last_sequence
    && not
        (is_confirmed batch.status && not (is_some batch.transaction_hash && batch.has_final_block))

abbrev pub check_batch : CommitmentBatch → Result (Unit {0})
check_batch batch = throw_if (not (batch_in_range batch)) schema_rejected

unfoldable pub commitment_batch_hash : Hashing → BatchEncoding → CommitmentBatch → Hash
commitment_batch_hash H B batch = H.keccak256 (B.batch batch)

unfoldable pub experiment_id_hash : Hashing → BatchEncoding → Ident → Hash
experiment_id_hash H B experiment_id = H.keccak256 (B.experiment experiment_id)

-- The checks of `buildBatch` on the events, each with the one before it.
unfoldable pub check_events : Ident → Option ℕ → List AuditEvent → Result (Unit {0})
check_events experiment_id before [] = ok tt
check_events experiment_id before (event ∷ events) = do
  throw_if (event.experiment_id != experiment_id) provenance_splice
  throw_if (when_some before (λ sequence. event.sequence != sequence + 1)) batch_continuity
  check_events experiment_id (some event.sequence) events

abbrev pub last_sequence_of : ℕ → List AuditEvent → ℕ
last_sequence_of sequence [] = sequence
last_sequence_of sequence (event ∷ events) = last_sequence_of event.sequence events

-- What the caller of `buildBatch` gives beside the events.
pub record NewBatch : Type 0 where
  pub experiment_id : Ident
  pub batch_id : Ident
  pub previous_batch_hash : Option Hash
  pub registry_network_id : Ident
  pub status : BatchStatus
  pub transaction_hash : Option Hash
  pub has_final_block : Bool

pub record BuiltBatch : Type 0 where
  pub batch : CommitmentBatch
  pub batch_hash : Hash
  pub leaf_set : LeafSet
  pub proofs : List MerkleProof

-- `leaves.map((_, index) => createProof(batchId, hashes, index))`, the first `count` of them from
-- `index` on
unfoldable pub proofs_from : Hashing → Ident → List Hash → ℕ → ℕ → Result (List MerkleProof)
proofs_from H batch_id hashes index zero = ok []
proofs_from H batch_id hashes index (suc count) = do
  proof ← create_proof H batch_id hashes index
  rest ← proofs_from H batch_id hashes (suc index) count
  ok (proof ∷ rest)

abbrev pub leaf_set_of : Hashing → EventEncoding → NewBatch → AuditEvent → List AuditEvent → LeafSet
leaf_set_of H E input event events = record {
  batch_id = input.batch_id;
  first_sequence = event.sequence;
  last_sequence = last_sequence_of event.sequence events;
  leaves = map (create_leaf H E) (event ∷ events);
}

abbrev pub batch_of : Hashing → BatchEncoding → NewBatch → LeafSet → Hash → CommitmentBatch
batch_of H B input leaf_set root = record {
  experiment_id = input.experiment_id;
  batch_id = input.batch_id;
  first_sequence = leaf_set.first_sequence;
  last_sequence = leaf_set.last_sequence;
  root = root;
  previous_batch_hash = input.previous_batch_hash;
  leaves_object_hash = H.keccak256 (B.leaf_set leaf_set);
  registry_network_id = input.registry_network_id;
  status = input.status;
  transaction_hash = input.transaction_hash;
  has_final_block = input.has_final_block;
}

unfoldable pub build_batch :
    Hashing → EventEncoding → BatchEncoding → NewBatch → List AuditEvent → Result BuiltBatch
build_batch H E B input [] = err commitment_invalid
build_batch H E B input (event ∷ events) = do
  for_each check_audit_event (event ∷ events)
  check_events input.experiment_id none (event ∷ events)
  let leaf_set = leaf_set_of H E input event events
  let hashes = map (λ leaf. leaf.leaf_hash) leaf_set.leaves
  root ← merkle_root H hashes
  let batch = batch_of H B input leaf_set root
  check_batch batch
  proofs ← proofs_from H input.batch_id hashes 0 (length hashes)
  ok (record {
    batch = batch;
    batch_hash = commitment_batch_hash H B batch;
    leaf_set = leaf_set;
    proofs = proofs;
  })

-- `experimentId && batch.experimentId !== experimentId`
abbrev pub differs_from : Option Ident → Ident → Bool
differs_from seen experiment_id = when_some seen (λ id. experiment_id != id)

-- The loop of `assertBatchContinuity`; the model returns the last sequence number.
unfoldable pub batch_loop :
    Hashing → BatchEncoding → Option Ident → ℕ → Option Hash → List CommitmentBatch → Result ℕ
batch_loop H B experiment last previous [] = ok last
batch_loop H B experiment last previous (batch ∷ batches) = do
  throw_if (differs_from experiment batch.experiment_id) provenance_splice
  throw_if (batch.first_sequence != last + 1) batch_continuity
  throw_if (not (opt_eq batch.previous_batch_hash previous)) batch_continuity
  batch_loop H B (some batch.experiment_id) batch.last_sequence
      (some (commitment_batch_hash H B batch)) batches

unfoldable pub assert_batch_continuity : Hashing → BatchEncoding → List CommitmentBatch → Result ℕ
assert_batch_continuity H B batches = do
  for_each check_batch batches
  batch_loop H B none 0 none batches

-- The fields of a receipt of the registry that its verification reads.
pub record RegistryReceipt : Type 0 where
  pub batch_id : Ident
  pub batch_hash : Hash
  pub experiment_id_hash : Hash
  pub registry_network_id : Ident
  pub registry_code_hash : Hash
  pub transaction_hash : Hash
  pub block_hash : Hash
  pub is_reorged : Bool
  pub block_is_final : Bool
  pub block_is_invalidated : Bool

-- The canonical chain's view, if it is given.
pub record Canonical : Type 0 where
  pub block_hash : Hash
  pub registry_code_hash : Hash

-- `RegistryPublicationReceipt.parse`: its checks across fields.
abbrev pub check_registry_receipt : RegistryReceipt → Result (Unit {0})
check_registry_receipt receipt =
    throw_if
      ((not receipt.is_reorged && not receipt.block_is_final)
        || (receipt.is_reorged && not receipt.block_is_invalidated))
      schema_rejected

unfoldable pub verify_publication :
    Hashing
    → BatchEncoding
    → CommitmentBatch
    → RegistryReceipt
    → Option Canonical
    → Result (Unit {0})
verify_publication H B batch receipt canonical = do
  check_batch batch
  check_registry_receipt receipt
  throw_if
      (receipt.batch_id != batch.batch_id
        || receipt.batch_hash != commitment_batch_hash H B batch
        || receipt.experiment_id_hash != experiment_id_hash H B batch.experiment_id
        || receipt.registry_network_id != batch.registry_network_id)
      commitment_invalid
  throw_if
      (receipt.is_reorged
        || when_some canonical (λ c. c.block_hash != receipt.block_hash)
        || when_some canonical (λ c. c.registry_code_hash != receipt.registry_code_hash))
      publication_reorged
