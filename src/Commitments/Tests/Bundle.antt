-- ===== src/Commitments/Tests/Bundle.antt =====
-- An export of one event, which is verified.
-- Code: packages/commitments/src/index.ts (`verifyExport`).
use alpha_proof.Base.{ℕ, ◌+◌, ◌≡◌, refl, true, false, none, some, [], ◌∷◌, map, ok}
use alpha_proof.Accounting.State.{Hash, Provenance}
use alpha_proof.Commitments.Hashing.{Bytes, node_hash}
use alpha_proof.Commitments.Merkle.{
  MerkleProof, parse_proof, next_level, root_loop, merkle_root, verify_proof,
}
use alpha_proof.Commitments.Audit.{
  AuditEvent, CommitmentLeaf, audit_event_hash, audit_loop, assert_audit_continuity, leaf_hash_of,
  create_leaf,
}
use alpha_proof.Commitments.Batches.{
  CommitmentBatch, RegistryReceipt, batch_in_range, commitment_batch_hash, experiment_id_hash,
  batch_loop, assert_batch_continuity, leaf_set_of, batch_of, verify_publication,
}
use alpha_proof.Commitments.Export.{
  ExportObject, Bundle, VerifiedExport, check_bundle, check_objects, check_frozen, check_leaves,
  check_audit, check_leaf_proofs, check_export_batch, check_batches, check_selected, verify_export,
}
use alpha_proof.Commitments.Export.Laws.{IsCommitted, verify_export-IsCommitted}
use alpha_proof.Commitments.Tests.{hashing, encoding, batch_encoding, new_batch}

abbrev object : ℕ → ExportObject
object type = record {
  object_type = type;
  experiment_id = some 1;
  result_provenance = none;
  content_hash = type + 31;
  payload = type ∷ [];
}

abbrev only_event : AuditEvent
only_event = record {
  experiment_id = 1;
  sequence = 1;
  object_type = 2;
  occurred_at = 3;
  result_provenance = Provenance.forward_shadow;
  object_schema_version = 4;
  content_hash = 42;
  previous_event_hash = none;
  supersedes_content_hash = none;
}

abbrev only_leaf : Hash
only_leaf = leaf_hash_of hashing encoding only_event

abbrev only_batch : CommitmentBatch
only_batch =
    batch_of hashing batch_encoding new_batch (leaf_set_of hashing encoding new_batch only_event [])
      only_leaf

abbrev only_proof : MerkleProof
only_proof = record {
  batch_id = 9;
  leaf_hash = only_leaf;
  leaf_index = 0;
  leaf_count = 1;
  siblings = [];
  root = only_leaf;
}

abbrev publication : RegistryReceipt
publication = record {
  batch_id = 9;
  batch_hash = commitment_batch_hash hashing batch_encoding only_batch;
  experiment_id_hash = experiment_id_hash hashing batch_encoding 1;
  registry_network_id = 6;
  registry_code_hash = 1;
  transaction_hash = 2;
  block_hash = 3;
  is_reorged = false;
  block_is_final = true;
  block_is_invalidated = false;
}

abbrev leaf_text : CommitmentLeaf → Bytes
leaf_text leaf = leaf.sequence ∷ leaf.leaf_hash ∷ []

abbrev bundle : Bundle
bundle = record {
  export_id = 77;
  experiment_id = 1;
  result_provenance = Provenance.forward_shadow;
  policy_hash = 32;
  configuration_hash = 33;
  profile_hash = 34;
  adapter_set_hash = 35;
  parser_set_hash = 36;
  engine_versions = 1 ∷ 1 ∷ 1 ∷ 1 ∷ 1 ∷ 1 ∷ 1 ∷ [];
  objects = map object (0 ∷ 1 ∷ 2 ∷ 3 ∷ 4 ∷ 5 ∷ 6 ∷ 7 ∷ 8 ∷ 9 ∷ 10 ∷ 11 ∷ 12 ∷ 13 ∷ 14 ∷ []);
  audit_events = only_event ∷ [];
  leaves = create_leaf hashing encoding only_event ∷ [];
  batches = only_batch ∷ [];
  proofs = only_proof ∷ [];
  registry_receipts = publication ∷ [];
  selected_result = record {
    object_content_hash = 42;
    audit_sequence = 1;
    leaf_hash = only_leaf;
    batch_id = 9;
  };
  required_object_hashes = 42 ∷ [];
}

abbrev verified : VerifiedExport
verified = record {
  export_id = 77;
  selected_object_hash = 42;
  leaf_hash = only_leaf;
  root = only_leaf;
  batch_hash = commitment_batch_hash hashing batch_encoding only_batch;
  transaction_hash = 2;
}

verify-bundle : verify_export hashing encoding batch_encoding leaf_text bundle ≡ ok verified
unfolding verify_export check_bundle check_objects check_frozen check_audit check_leaves
    check_batches check_export_batch check_leaf_proofs check_selected assert_audit_continuity
    audit_loop audit_event_hash leaf_hash_of create_leaf assert_batch_continuity batch_loop
    batch_in_range commitment_batch_hash experiment_id_hash merkle_root root_loop next_level
    node_hash parse_proof verify_proof verify_publication
verify-bundle = refl

verify_export-IsCommitted_example : IsCommitted hashing encoding batch_encoding leaf_text bundle
verify_export-IsCommitted_example =
    verify_export-IsCommitted hashing encoding batch_encoding leaf_text bundle verify-bundle
