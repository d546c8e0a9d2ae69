-- ===== src/Commitments/Audit.antt =====
-- The chain of audit events: each event names the hash of the one before it.
-- Code: packages/commitments/src/index.ts (`auditEventHash`, `assertAuditContinuity`,
-- `createAuditEvent`, `leafHash`, `createLeaf`), packages/schemas/src/objects.ts (`AuditEvent`),
-- packages/schemas/src/m6.ts (`CommitmentLeaf`).
pub mod Chain
pub mod Binding
use alpha_proof.Base.{
  ℕ, suc, ◌+◌, ◌++◌, Bool, true, false, not, ◌&&◌, ◌||◌, Option, none, some, List, [], ◌∷◌, ◌==◌,
  ◌!=◌, opt_eq, Result, ok, ◌>>=◌, ◌>>◌, throw_if, batch_continuity, schema_rejected, for_each,
}
use alpha_proof.Accounting.State.{Ident, Hash, Provenance}
use alpha_proof.Accounting.Check.Schema.{is_positive_uint}
use alpha_proof.Commitments.Hashing.{Hashing, Bytes}

-- The type of the object and its schema's version are numbered.
pub record AuditEvent : Type 0 where
  pub experiment_id : Ident
  pub sequence : ℕ
  pub object_type : ℕ
  pub occurred_at : ℕ
  pub result_provenance : Provenance
  pub object_schema_version : ℕ
  pub content_hash : Hash
  pub previous_event_hash : Option Hash
  pub supersedes_content_hash : Option Hash

pub record CommitmentLeaf : Type 0 where
  pub experiment_id : Ident
  pub sequence : ℕ
  pub object_type : ℕ
  pub object_schema_version : ℕ
  pub content_hash : Hash
  pub audit_event_hash : Hash
  pub leaf_hash : Hash

-- The canonical JSON text of an event, and that of a leaf's body after the domain of leaves.
pub record EventEncoding : Type 0 where
  pub audit_event : AuditEvent → Bytes
  pub leaf_body : AuditEvent → Hash → Bytes
  pub leaf_domain : Bytes

-- `AuditEvent.parse`, on the numbers.
unfoldable pub parse_audit_event : AuditEvent → Result AuditEvent
parse_audit_event event = do
  throw_if (not (is_positive_uint event.sequence)) schema_rejected
  ok event

-- `auditEventHash` of an event that is parsed
unfoldable pub audit_event_hash : Hashing → EventEncoding → AuditEvent → Hash
audit_event_hash H E event = H.keccak256 (E.audit_event event)

-- The loop of `assertAuditContinuity`, with the hash that it ends with.
unfoldable pub audit_loop :
    Hashing → EventEncoding → ℕ → Option Hash → List AuditEvent → Result (Option Hash)
audit_loop H E index previous [] = ok previous
audit_loop H E index previous (event ∷ events) = do
  throw_if (event.sequence != index + 1) batch_continuity
  throw_if (not (opt_eq event.previous_event_hash previous)) batch_continuity
  audit_loop H E (suc index) (some (audit_event_hash H E event)) events

abbrev pub check_audit_event : AuditEvent → Result (Unit {0})
check_audit_event event = throw_if (not (is_positive_uint event.sequence)) schema_rejected

-- The events are parsed first; the code returns them, the model the last one's hash.
unfoldable pub assert_audit_continuity :
    Hashing → EventEncoding → List AuditEvent → Result (Option Hash)
assert_audit_continuity H E events = do
  for_each check_audit_event events
  audit_loop H E 0 none events

abbrev pub previous_sequence : Option AuditEvent → ℕ
previous_sequence none = 0
previous_sequence (some event) = event.sequence

abbrev pub other_experiment : Option AuditEvent → Ident → Bool
other_experiment none experiment_id = false
other_experiment (some event) experiment_id = event.experiment_id != experiment_id

abbrev pub previous_hash : Hashing → EventEncoding → Option AuditEvent → Option Hash
previous_hash H E none = none
previous_hash H E (some event) = some (audit_event_hash H E event)

-- What the caller of `createAuditEvent` gives is an event whose predecessor's hash is not known.
unfoldable pub create_audit_event :
    Hashing → EventEncoding → Option AuditEvent → AuditEvent → Result AuditEvent
create_audit_event H E previous input = do
  throw_if
      (input.sequence != previous_sequence previous + 1
        || other_experiment previous input.experiment_id)
      batch_continuity
  parse_audit_event (record input { previous_event_hash = previous_hash H E previous })

unfoldable pub leaf_hash_of : Hashing → EventEncoding → AuditEvent → Hash
leaf_hash_of H E event =
    H.keccak256 (E.leaf_domain ++ E.leaf_body event (audit_event_hash H E event))

-- `createLeaf` of an event that is parsed
unfoldable pub create_leaf : Hashing → EventEncoding → AuditEvent → CommitmentLeaf
create_leaf H E event = record {
  experiment_id = event.experiment_id;
  sequence = event.sequence;
  object_type = event.object_type;
  object_schema_version = event.object_schema_version;
  content_hash = event.content_hash;
  audit_event_hash = audit_event_hash H E event;
  leaf_hash = leaf_hash_of H E event;
}
