-- ===== src/Commitments/Batches/Building.antt =====
-- What a batch that is built consists of.
-- Code: packages/commitments/src/index.ts (`buildBatch`).
use alpha_proof.Base.{
  ℕ, zero, suc, ◌+◌, ◌<◌, ◌≡◌, refl, sym, ap, ◌∙◌, true, Option, none, some, List, [], ◌∷◌, map,
  ◌==◌, all, length, get_elem?, ok, arith, subst, >>=-elim, >>-elim, for_each, ok-injective,
  eq_of_some,
}
use alpha_proof.Accounting.State.{Ident, Hash}
use alpha_proof.Commitments.Hashing.{Hashing}
use alpha_proof.Commitments.Merkle.{MerkleProof, safe_limit, parse_proof, merkle_root, create_proof}
use alpha_proof.Commitments.Merkle.Laws.{Proves, create_proof-Proves}
use alpha_proof.Commitments.Audit.{
  AuditEvent, CommitmentLeaf, EventEncoding, check_audit_event, create_leaf,
}
use alpha_proof.Commitments.Batches.{
  BatchEncoding, NewBatch, BuiltBatch, check_batch, check_events, last_sequence_of, leaf_set_of,
  batch_of, proofs_from, build_batch,
}

check_events-last :
    (x : Ident) (s : ℕ) (es : List AuditEvent)
    → check_events x (some s) es ≡ ok tt
    → last_sequence_of s es ≡ s + length es
unfolding check_events
check_events-last x s [] h = omega arith
check_events-last x s (e ∷ es) h = ground (arith, check_events-last x e.sequence es)

check_events-all :
    (x : Ident) (before : Option ℕ) (es : List AuditEvent)
    → check_events x before es ≡ ok tt
    → all (λ e. e.experiment_id == x) es ≡ true
unfolding check_events
check_events-all x before [] h = refl
check_events-all x before (e ∷ es) h = ground (arith, check_events-all x (some e.sequence) es)

create_proof-within :
    (H : Hashing) (id : Ident) (hs : List Hash) (i : ℕ) {p : MerkleProof}
    → create_proof H id hs i ≡ ok p
    → (i < length hs) × (length hs < safe_limit)
unfolding create_proof parse_proof
create_proof-within H id hs i h = ground arith

pub create_proof-ok-Proves :
    (H : Hashing) (id : Ident) (hs : List Hash) (i : ℕ) {p : MerkleProof}
    → create_proof H id hs i ≡ ok p
    → Proves H hs i p
create_proof-ok-Proves H id hs i h =
    let (within, safe) = create_proof-within H id hs i h in
    let (q, created, proves) = create_proof-Proves H id hs i within safe in
    subst (Proves H hs i) (ok-injective (sym created ∙ h)) proves

proofs_from-Proves :
    (H : Hashing) (id : Ident) (hs : List Hash) (i n : ℕ) {ps : List MerkleProof}
    → proofs_from H id hs i n ≡ ok ps
    → (k : ℕ) → k < n
    → (p : MerkleProof) × (get_elem? ps k ≡ some p) × Proves H hs (i + k) p
unfolding proofs_from
proofs_from-Proves H id hs i zero h k less = absurd (omega arith)
proofs_from-Proves H id hs i (suc n) h zero less =
    >>=-elim (create_proof H id hs i) _ h λ p created h₁.
      >>=-elim (proofs_from H id hs (suc i) n) _ h₁ λ rest others h₂. (
        p,
        ap (λ x. get_elem? x 0) (sym (ok-injective h₂)),
        subst (λ z. Proves H hs z p) (omega arith) (create_proof-ok-Proves H id hs i created),
      )
proofs_from-Proves H id hs i (suc n) h (suc k) less =
    >>=-elim (create_proof H id hs i) _ h λ p created h₁.
      >>=-elim (proofs_from H id hs (suc i) n) _ h₁ λ rest others h₂.
        let (q, found, proves) = proofs_from-Proves H id hs (suc i) n others k (omega arith) in
        (
          q,
          ap (λ x. get_elem? x (suc k)) (sym (ok-injective h₂)) ∙ found,
          subst (λ z. Proves H hs z q) (omega arith) proves,
        )

-- What is said of a batch that is built.
pub record IsBuilt (H : Hashing) (E : EventEncoding) (input : NewBatch) (events : List AuditEvent)
    (b : BuiltBatch) : Type 0 where
  pub contiguous : b.batch.last_sequence + 1 ≡ b.batch.first_sequence + length b.leaf_set.leaves
  pub one_experiment : all (λ e. e.experiment_id == input.experiment_id) events ≡ true
  pub leaves : b.leaf_set.leaves ≡ map (create_leaf H E) events
  pub numbered :
      (k : ℕ) (e : AuditEvent)
      → get_elem? events k ≡ some e
      → e.sequence ≡ b.batch.first_sequence + k
  pub root : merkle_root H (map (λ leaf. leaf.leaf_hash) b.leaf_set.leaves) ≡ ok b.batch.root
  pub proofs :
      (k : ℕ)
      → k < length events
      → (p : MerkleProof) × (get_elem? b.proofs k ≡ some p)
        × Proves H (map (λ leaf. leaf.leaf_hash) b.leaf_set.leaves) k p

length-map : (E : List AuditEvent) (f : AuditEvent → CommitmentLeaf) → length (map f E) ≡ length E
length-map [] f = refl
length-map (x ∷ xs) f = omega (arith, length-map xs f)

length-map_hash : (ls : List CommitmentLeaf) → length (map (λ leaf. leaf.leaf_hash) ls) ≡ length ls
length-map_hash [] = refl
length-map_hash (x ∷ xs) = omega (arith, length-map_hash xs)

check_events-next :
    (x : Ident) (n : ℕ) (e : AuditEvent) (es : List AuditEvent)
    → check_events x (some n) (e ∷ es) ≡ ok tt
    → e.sequence ≡ n + 1
unfolding check_events
check_events-next x n e es h = ground arith

check_events-tail :
    (x : Ident) (before : Option ℕ) (e : AuditEvent) (es : List AuditEvent)
    → check_events x before (e ∷ es) ≡ ok tt
    → check_events x (some e.sequence) es ≡ ok tt
unfolding check_events
check_events-tail x before e es h = ground arith

check_events-numbered :
    (x : Ident) (before : Option ℕ) (first : AuditEvent) (es : List AuditEvent)
    → check_events x before (first ∷ es) ≡ ok tt
    → (k : ℕ) (e : AuditEvent) → get_elem? (first ∷ es) k ≡ some e
    → e.sequence ≡ first.sequence + k
check_events-numbered x before first es h zero e at =
    ap (λ z. z.sequence) (sym (eq_of_some at)) ∙ omega arith
check_events-numbered x before first [] h (suc k) e at = absurd (cc at)
check_events-numbered x before first (next ∷ es) h (suc k) e at =
    let rest = check_events-tail x before first (next ∷ es) h in
    let one = check_events-next x first.sequence next es rest in
    omega (arith, one, check_events-numbered x (some first.sequence) next es rest k e at)

-- A batch that is built is about one experiment, and its leaves are those of the events in their
-- order; the events are numbered without a gap from its first sequence number to its last; it has
-- the Merkle root of the leaves, and has a proof for the leaf at each place, which is accepted by
-- the verification against this root.
pub build_batch-IsBuilt :
    (H : Hashing) (E : EventEncoding) (B : BatchEncoding) (input : NewBatch)
    (events : List AuditEvent) {b : BuiltBatch}
    → build_batch H E B input events ≡ ok b
    → IsBuilt H E input events b
unfolding build_batch
build_batch-IsBuilt H E B input [] h = absurd (cc h)
build_batch-IsBuilt H E B input (e ∷ es) h =
    let set = leaf_set_of H E input e es in
    let hashes = map (λ leaf. leaf.leaf_hash) set.leaves in
    let count = length-map_hash set.leaves in
    let leaves = length-map es (create_leaf H E) in
    >>-elim (for_each check_audit_event (e ∷ es)) _ h λ parsed h₁.
      >>-elim (check_events input.experiment_id none (e ∷ es)) _ h₁ λ checked h₂.
        >>=-elim (merkle_root H hashes) _ h₂ λ root rooted h₃.
          >>-elim (check_batch (batch_of H B input set root)) _ h₃ λ fits h₄.
            >>=-elim (proofs_from H input.batch_id hashes 0 (length hashes)) _ h₄
              λ proofs proved h₅.
                let last =
                  check_events-last input.experiment_id e.sequence es
                    (check_events-tail _ none e es checked) in
                subst (IsBuilt H E input (e ∷ es)) (ok-injective h₅) (record {
                  contiguous = omega (arith, last, leaves);
                  one_experiment = check_events-all input.experiment_id none (e ∷ es) checked;
                  leaves = refl;
                  numbered = check_events-numbered input.experiment_id none e es checked;
                  root = rooted;
                  proofs = λ k less.
                      let more : k < length hashes = omega (arith, count, leaves) in
                      let (p, found, proves) =
                        proofs_from-Proves H input.batch_id hashes 0 (length hashes) proved k
                          more in
                      (p, found, subst (λ z. Proves H hashes z p) (omega arith) proves);
                })
