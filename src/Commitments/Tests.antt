-- ===== src/Commitments/Tests.antt =====
-- A concrete hash function and short chains, and the theorems of the commitments at them.
-- Code: packages/commitments/src/index.ts.
mod Bundle
use alpha_proof.Base.{
  ℕ, ◌+◌, ◌*◌, ◌≡◌, ◌⊎◌, refl, Option, none, some, List, [], ◌∷◌, get_elem?, ok, arith, false,
}
use alpha_proof.Accounting.State.{Hash, Provenance}
use alpha_proof.Commitments.Hashing.{Hashing, Bytes, node_hash}
use alpha_proof.Commitments.Merkle.{
  MerkleProof, Sibling, Side, parse_proof, next_level, root_loop, merkle_root, sibling_of, climb,
  create_proof, verify_proof,
}
use alpha_proof.Commitments.Merkle.Laws.{Proves, create_proof-Proves}
use alpha_proof.Commitments.Merkle.Binding.{Collision, verify_proof-binds}
use alpha_proof.Commitments.Audit.{
  AuditEvent, EventEncoding, parse_audit_event, audit_event_hash, audit_loop,
  assert_audit_continuity, create_audit_event, leaf_hash_of, create_leaf,
}
use alpha_proof.Commitments.Audit.Chain.{EventCollision}
use alpha_proof.Commitments.Audit.Binding.{
  create_audit_event-prolongs, assert_audit_continuity-binds,
}
use alpha_proof.Commitments.Batches.{
  CommitmentBatch, BatchEncoding, BatchStatus, NewBatch, BuiltBatch, LeafSet, batch_in_range,
  commitment_batch_hash, check_events, proofs_from, build_batch, batch_loop,
  assert_batch_continuity, leaf_set_of, batch_of,
}
use alpha_proof.Commitments.Batches.Partition.{batches_with, assert_batch_continuity-batches_with}
use alpha_proof.Commitments.Batches.Building.{IsBuilt, build_batch-IsBuilt}

-- A polynomial of the bytes.
abbrev digest : Bytes → Hash
digest [] = 1
digest (b ∷ bs) = b + 31 * digest bs

abbrev hashing : Hashing
hashing = record { keccak256 = digest; hex_to_bytes = λ h. h ∷ []; node_domain = 7 ∷ [] }

abbrev encoding : EventEncoding
encoding = record {
  audit_event = λ e. e.sequence ∷ e.content_hash ∷ [];
  leaf_body = λ e h. e.sequence ∷ h ∷ [];
  leaf_domain = 5 ∷ [];
}

abbrev batch_encoding : BatchEncoding
batch_encoding = record {
  batch = λ b. b.first_sequence ∷ b.last_sequence ∷ b.root ∷ [];
  leaf_set = λ l. l.first_sequence ∷ l.last_sequence ∷ [];
  experiment = λ id. id ∷ [];
}

abbrev hashes : List Hash
hashes = 2 ∷ 3 ∷ 5 ∷ []

create_proof-Proves_example :
    (p : MerkleProof) × (create_proof hashing 1 hashes 2 ≡ ok p) × Proves hashing hashes 2 p
create_proof-Proves_example = create_proof-Proves hashing 1 hashes 2 (omega arith) (omega arith)

abbrev node : Hash → Hash → Hash
node a b = digest (7 ∷ a ∷ b ∷ [])

abbrev own_proof : MerkleProof
own_proof = record {
  batch_id = 1;
  leaf_hash = 5;
  leaf_index = 2;
  leaf_count = 3;
  siblings =
      record { side = Side.right; hash = 5 } ∷ record { side = Side.left; hash = node 2 3 } ∷ [];
  root = node (node 2 3) (node 5 5);
}

own-created : create_proof hashing 1 hashes 2 ≡ ok own_proof
unfolding create_proof climb sibling_of next_level parse_proof node_hash
own-created = refl

own-verified : verify_proof hashing own_proof ≡ ok tt
unfolding verify_proof parse_proof node_hash
own-verified = refl

own-root : merkle_root hashing hashes ≡ ok own_proof.root
unfolding merkle_root root_loop next_level node_hash
own-root = refl

verify_proof-binds_example : (get_elem? hashes 2 ≡ some 5) ⊎ Collision hashing
verify_proof-binds_example =
    verify_proof-binds hashing 1 hashes 2 own_proof own_proof (omega arith) (omega arith)
      own-created own-verified own-root refl

abbrev event : ℕ → Option Hash → AuditEvent
event sequence previous = record {
  experiment_id = 1;
  sequence = sequence;
  object_type = 2;
  occurred_at = 3;
  result_provenance = Provenance.forward_shadow;
  object_schema_version = 4;
  content_hash = 8;
  previous_event_hash = previous;
  supersedes_content_hash = none;
}

abbrev first_event : AuditEvent
first_event = event 1 none

abbrev second_event : AuditEvent
second_event = event 2 (some (digest (1 ∷ 8 ∷ [])))

first-continuous :
    assert_audit_continuity hashing encoding (first_event ∷ []) ≡ ok (some (digest (1 ∷ 8 ∷ [])))
unfolding assert_audit_continuity audit_loop audit_event_hash
first-continuous = refl

second-created :
    create_audit_event hashing encoding (some first_event) (event 2 none) ≡ ok second_event
unfolding create_audit_event parse_audit_event audit_event_hash
second-created = refl

assert_audit_continuity-binds_example :
    (first_event ∷ [] ≡ first_event ∷ []) ⊎ EventCollision hashing encoding
assert_audit_continuity-binds_example =
    assert_audit_continuity-binds hashing encoding (first_event ∷ []) (first_event ∷ [])
      first-continuous first-continuous

abbrev new_batch : NewBatch
new_batch = record {
  experiment_id = 1;
  batch_id = 9;
  previous_batch_hash = none;
  registry_network_id = 6;
  status = BatchStatus.pending;
  transaction_hash = none;
  has_final_block = false;
}

abbrev two_events : List AuditEvent
two_events = first_event ∷ second_event ∷ []

abbrev leaf : AuditEvent → Hash
leaf e = leaf_hash_of hashing encoding e

abbrev leaf_set : LeafSet
leaf_set = leaf_set_of hashing encoding new_batch first_event (second_event ∷ [])

abbrev root : Hash
root = node (leaf first_event) (leaf second_event)

abbrev batch : CommitmentBatch
batch = batch_of hashing batch_encoding new_batch leaf_set root

abbrev proof_of : AuditEvent → ℕ → Sibling → MerkleProof
proof_of e index sibling = record {
  batch_id = 9;
  leaf_hash = leaf e;
  leaf_index = index;
  leaf_count = 2;
  siblings = sibling ∷ [];
  root = root;
}

abbrev built : BuiltBatch
built = record {
  batch = batch;
  batch_hash = commitment_batch_hash hashing batch_encoding batch;
  leaf_set = leaf_set;
  proofs =
      proof_of first_event 0 (record { side = Side.right; hash = leaf second_event })
      ∷ proof_of second_event 1 (record { side = Side.left; hash = leaf first_event })
      ∷ [];
}

build-two : build_batch hashing encoding batch_encoding new_batch two_events ≡ ok built
unfolding build_batch check_events batch_in_range proofs_from create_proof climb sibling_of
    next_level parse_proof node_hash merkle_root root_loop leaf_hash_of audit_event_hash create_leaf
    commitment_batch_hash
build-two = refl

build_batch-IsBuilt_example : IsBuilt hashing encoding new_batch two_events built
build_batch-IsBuilt_example =
    build_batch-IsBuilt hashing encoding batch_encoding new_batch two_events build-two

abbrev range : ℕ → ℕ → Option Hash → CommitmentBatch
range first last previous = record {
  experiment_id = 1;
  batch_id = first;
  first_sequence = first;
  last_sequence = last;
  root = 4;
  previous_batch_hash = previous;
  leaves_object_hash = 5;
  registry_network_id = 6;
  status = BatchStatus.pending;
  transaction_hash = none;
  has_final_block = false;
}

abbrev ranges : List CommitmentBatch
ranges = range 1 3 none ∷ range 4 5 (some (digest (1 ∷ 3 ∷ 4 ∷ []))) ∷ []

ranges-continuous : assert_batch_continuity hashing batch_encoding ranges ≡ ok 5
unfolding assert_batch_continuity batch_loop batch_in_range commitment_batch_hash
ranges-continuous = refl

assert_batch_continuity-batches_with_example : batches_with 4 ranges ≡ 1
assert_batch_continuity-batches_with_example =
    assert_batch_continuity-batches_with hashing batch_encoding ranges 4 ranges-continuous
