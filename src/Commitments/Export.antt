-- ===== src/Commitments/Export.antt =====
-- The verification of an export: its objects, frozen hashes, audit chain, leaves, batches, proofs and
-- publications, and the chain of the selected result.
-- Code: packages/commitments/src/index.ts (`verifyExport`), packages/schemas/src/m6.ts
-- (`ExportObject`, `ReproducibleExport`).
pub mod Laws
use alpha_proof.Base.{
  ℕ, zero, suc, ◌+◌, ◌-◌, Bool, true, false, not, ◌&&◌, ◌||◌, Option, none, some, List, [], ◌∷◌,
  ◌==◌, ◌!=◌, leb, opt_eq, when_some, length, map, any, all, find, filter, includes, distinct,
  Result, ok, ◌>>=◌, ◌>>◌, throw_if, or_throw, for_each, version_drift, export_incomplete,
  provenance_splice, replay_mismatch, commitment_invalid, batch_continuity, schema_rejected,
}
use alpha_proof.Accounting.State.{Ident, Hash, Provenance, provenance_eq}
use alpha_proof.Accounting.Check.Schema.{is_positive_uint}
use alpha_proof.Commitments.Hashing.{Hashing, Bytes}
use alpha_proof.Commitments.Merkle.{MerkleProof, merkle_root, parse_proof, verify_proof}
use alpha_proof.Commitments.Audit.{
  AuditEvent, CommitmentLeaf, EventEncoding, check_audit_event, create_leaf,
  assert_audit_continuity,
}
use alpha_proof.Commitments.Batches.{
  CommitmentBatch, LeafSet, BatchEncoding, RegistryReceipt, check_batch, check_registry_receipt,
  commitment_batch_hash, assert_batch_continuity, verify_publication,
}

-- The types of objects are numbered in the order of the schema: all but the last are required.
abbrev required_export_types : List ℕ
required_export_types = 0 ∷ 1 ∷ 2 ∷ 3 ∷ 4 ∷ 5 ∷ 6 ∷ 7 ∷ 8 ∷ 9 ∷ 10 ∷ 11 ∷ 12 ∷ 13 ∷ 14 ∷ []

-- The payload is given by its canonical text.
pub record ExportObject : Type 0 where
  pub object_type : ℕ
  pub experiment_id : Option Ident
  pub result_provenance : Option Provenance
  pub content_hash : Hash
  pub payload : Bytes

pub record SelectedResult : Type 0 where
  pub object_content_hash : Hash
  pub audit_sequence : ℕ
  pub leaf_hash : Hash
  pub batch_id : Ident

-- The versions of the seven engines are numbered, in the order of the schema.
pub record Bundle : Type 0 where
  pub export_id : Ident
  pub experiment_id : Ident
  pub result_provenance : Provenance
  pub policy_hash : Hash
  pub configuration_hash : Hash
  pub profile_hash : Hash
  pub adapter_set_hash : Hash
  pub parser_set_hash : Hash
  pub engine_versions : List ℕ
  pub objects : List ExportObject
  pub audit_events : List AuditEvent
  pub leaves : List CommitmentLeaf
  pub batches : List CommitmentBatch
  pub proofs : List MerkleProof
  pub registry_receipts : List RegistryReceipt
  pub selected_result : SelectedResult
  pub required_object_hashes : List Hash

pub record VerifiedExport : Type 0 where
  pub export_id : Ident
  pub selected_object_hash : Hash
  pub leaf_hash : Hash
  pub root : Hash
  pub batch_hash : Hash
  pub transaction_hash : Hash

abbrev is_empty {ℓ} : {A : Type ℓ} → List A → Bool
is_empty [] = true
is_empty (x ∷ xs) = false

abbrev check_proof : MerkleProof → Result (Unit {0})
check_proof proof = parse_proof proof >>= λ _. ok tt

-- `ReproducibleExport.parse`
unfoldable pub check_bundle : Hashing → Bundle → Result (Unit {0})
check_bundle H bundle = do
  throw_if (any (λ object. H.keccak256 object.payload != object.content_hash) bundle.objects)
      schema_rejected
  for_each check_audit_event bundle.audit_events
  throw_if (not (all (λ leaf. is_positive_uint leaf.sequence) bundle.leaves)) schema_rejected
  for_each check_batch bundle.batches
  for_each check_proof bundle.proofs
  for_each check_registry_receipt bundle.registry_receipts
  throw_if
      (is_empty bundle.objects
        || is_empty bundle.audit_events
        || is_empty bundle.leaves
        || is_empty bundle.batches
        || is_empty bundle.proofs
        || is_empty bundle.registry_receipts
        || is_empty bundle.required_object_hashes)
      schema_rejected

-- The one supported version, `1.0.0`, is number 1 for every engine.
unfoldable pub check_objects : Bundle → Result (Unit {0})
check_objects bundle = do
  throw_if (any (λ version. version != 1) bundle.engine_versions) version_drift
  throw_if
      (any (λ type. not (includes type (map (λ object. object.object_type) bundle.objects)))
        required_export_types)
      export_incomplete
  throw_if (not (distinct (map (λ object. object.content_hash) bundle.objects))) export_incomplete
  throw_if
      (any (λ hash. not (includes hash (map (λ object. object.content_hash) bundle.objects)))
        bundle.required_object_hashes)
      export_incomplete
  throw_if
      (any
        (λ object.
          when_some object.experiment_id (λ id. id != bundle.experiment_id)
          || when_some object.result_provenance
              (λ p. not (provenance_eq p bundle.result_provenance)))
        bundle.objects)
      provenance_splice

-- `byType(type).contentHash !== hash`
abbrev differs_by_type : Bundle → ℕ → Hash → Bool
differs_by_type bundle type hash =
    when_some (find (λ object. object.object_type == type) bundle.objects)
      (λ object. object.content_hash != hash)

unfoldable pub check_frozen : Bundle → Result (Unit {0})
check_frozen bundle =
    throw_if
      (differs_by_type bundle 1 bundle.policy_hash
        || differs_by_type bundle 2 bundle.configuration_hash
        || differs_by_type bundle 3 bundle.profile_hash
        || differs_by_type bundle 4 bundle.adapter_set_hash
        || differs_by_type bundle 5 bundle.parser_set_hash)
      replay_mismatch

-- The content hash of a leaf is taken of its canonical text, a parameter.
unfoldable pub check_leaves :
    Hashing
    → EventEncoding
    → (CommitmentLeaf → Bytes)
    → List AuditEvent
    → List CommitmentLeaf
    → Result (Unit {0})
check_leaves H E text [] leaves = ok tt
check_leaves H E text (event ∷ events) [] = throw_if true commitment_invalid
check_leaves H E text (event ∷ events) (leaf ∷ leaves) = do
  throw_if
      (H.keccak256 (text (create_leaf H E event)) != H.keccak256 (text leaf)
        || leaf.sequence != event.sequence)
      commitment_invalid
  check_leaves H E text events leaves

unfoldable pub check_audit :
    Hashing → EventEncoding → (CommitmentLeaf → Bytes) → Bundle → Result (Unit {0})
check_audit H E text bundle = do
  last ← assert_audit_continuity H E bundle.audit_events
  throw_if
      (any
        (λ event.
          not (includes event.content_hash (map (λ object. object.content_hash) bundle.objects)))
        bundle.audit_events)
      export_incomplete
  throw_if (length bundle.leaves != length bundle.audit_events) export_incomplete
  check_leaves H E text bundle.audit_events bundle.leaves

-- `items.at(-1)?.…`, one past nothing
abbrev pub last_of {ℓ} : {A : Type ℓ} → (A → ℕ) → ℕ → List A → ℕ
last_of f n [] = n
last_of f n (x ∷ xs) = last_of f (f x) xs

abbrev pub in_batch : CommitmentBatch → CommitmentLeaf → Bool
in_batch batch leaf =
    leb batch.first_sequence leaf.sequence && leb leaf.sequence batch.last_sequence

abbrev pub leaves_of : Bundle → CommitmentBatch → List CommitmentLeaf
leaves_of bundle batch = filter (in_batch batch) bundle.leaves

-- The first of a list with one entry.
abbrev single {ℓ} : {A : Type ℓ} → List A → Option A
single [] = none
single (x ∷ []) = some x
single (x ∷ y ∷ xs) = none

unfoldable pub check_leaf_proofs :
    Hashing → CommitmentBatch → ℕ → List MerkleProof → ℕ → List CommitmentLeaf → Result (Unit {0})
check_leaf_proofs H batch count proofs index [] = ok tt
check_leaf_proofs H batch count proofs index (leaf ∷ leaves) = do
  proof ← or_throw (single (filter (λ p. p.leaf_hash == leaf.leaf_hash) proofs)) commitment_invalid
  throw_if (proof.leaf_index != index || proof.leaf_count != count || proof.root != batch.root)
      commitment_invalid
  verify_proof H proof
  check_leaf_proofs H batch count proofs (index + 1) leaves

abbrev pub export_leaf_set : CommitmentBatch → List CommitmentLeaf → LeafSet
export_leaf_set batch leaves = record {
  batch_id = batch.batch_id;
  first_sequence = batch.first_sequence;
  last_sequence = batch.last_sequence;
  leaves = leaves;
}

-- One round of the loop over the batches. A batch that is parsed has an ordered range.
unfoldable pub check_export_batch :
    Hashing → BatchEncoding → Bundle → CommitmentBatch → Result (Unit {0})
check_export_batch H B bundle batch = do
  let leaves = leaves_of bundle batch
  throw_if (length leaves != batch.last_sequence - batch.first_sequence + 1) batch_continuity
  throw_if (H.keccak256 (B.leaf_set (export_leaf_set batch leaves)) != batch.leaves_object_hash)
      commitment_invalid
  root ← merkle_root H (map (λ leaf. leaf.leaf_hash) leaves)
  throw_if (root != batch.root) commitment_invalid
  let proofs = filter (λ p. p.batch_id == batch.batch_id) bundle.proofs
  throw_if (length proofs != length leaves) export_incomplete
  check_leaf_proofs H batch (length leaves) proofs 0 leaves
  receipt ←
      or_throw (single (filter (λ r. r.batch_id == batch.batch_id) bundle.registry_receipts))
        export_incomplete
  verify_publication H B batch receipt none

unfoldable pub check_batches : Hashing → BatchEncoding → Bundle → Result (Unit {0})
check_batches H B bundle = do
  last ← assert_batch_continuity H B bundle.batches
  throw_if
      (last_of (λ b. b.last_sequence) 0 bundle.batches
        != last_of (λ e. e.sequence) 0 bundle.audit_events)
      export_incomplete
  for_each (check_export_batch H B bundle) bundle.batches
  throw_if (length bundle.registry_receipts != length bundle.batches) export_incomplete

unfoldable pub check_selected : Hashing → BatchEncoding → Bundle → Result VerifiedExport
check_selected H B bundle = do
  let selected = bundle.selected_result
  object ←
      or_throw (find (λ o. o.content_hash == selected.object_content_hash) bundle.objects)
        export_incomplete
  event ←
      or_throw (find (λ e. e.sequence == selected.audit_sequence) bundle.audit_events)
        export_incomplete
  leaf ← or_throw (find (λ l. l.leaf_hash == selected.leaf_hash) bundle.leaves) export_incomplete
  batch ← or_throw (find (λ b. b.batch_id == selected.batch_id) bundle.batches) export_incomplete
  proof ←
      or_throw
        (find (λ p. p.batch_id == selected.batch_id && p.leaf_hash == selected.leaf_hash)
          bundle.proofs)
        export_incomplete
  receipt ←
      or_throw (find (λ r. r.batch_id == selected.batch_id) bundle.registry_receipts)
        export_incomplete
  throw_if
      (event.content_hash != object.content_hash
        || leaf.content_hash != object.content_hash
        || proof.root != batch.root)
      export_incomplete
  verify_publication H B batch receipt none
  ok (record {
    export_id = bundle.export_id;
    selected_object_hash = object.content_hash;
    leaf_hash = leaf.leaf_hash;
    root = batch.root;
    batch_hash = commitment_batch_hash H B batch;
    transaction_hash = receipt.transaction_hash;
  })

unfoldable pub verify_export :
    Hashing
    → EventEncoding
    → BatchEncoding
    → (CommitmentLeaf → Bytes)
    → Bundle
    → Result VerifiedExport
verify_export H E B text bundle = do
  check_bundle H bundle
  check_objects bundle
  check_frozen bundle
  check_audit H E text bundle
  check_batches H B bundle
  check_selected H B bundle
