-- ===== src/Commitments/Export/Laws.antt =====
-- What holds of the events, leaves and batches of an export that is verified.
-- Code: packages/commitments/src/index.ts (`verifyExport`).
use alpha_proof.Base.{
  ℕ, zero, suc, ◌+◌, ◌-◌, ◌≡◌, refl, sym, ◌||◌, ap, ◌∙◌, not, ◌&&◌, Option, none, some, List, [],
  ◌∷◌, ◌!=◌, leb, ltb, length, get_elem?, map, any, includes, if◌then◌else◌, ok, arith, subst,
  >>=-elim, >>-elim, throw_if, throw_if-ok, for_each, ok-injective, eq_of_some, export_incomplete,
  commitment_invalid, batch_continuity,
}
use alpha_proof.Accounting.State.{Ident, Hash}
use alpha_proof.Commitments.Hashing.{Hashing, Bytes}
use alpha_proof.Commitments.Merkle.{merkle_root}
use alpha_proof.Commitments.Audit.{
  AuditEvent, CommitmentLeaf, EventEncoding, check_audit_event, create_leaf,
  assert_audit_continuity, audit_loop, audit_event_hash,
}
use alpha_proof.Commitments.Batches.{
  CommitmentBatch, BatchEncoding, check_batch, batch_loop, assert_batch_continuity,
  commitment_batch_hash,
}
use alpha_proof.Commitments.Audit.Chain.{audit_loop-cons, !=→≡}
use alpha_proof.Commitments.Batches.Partition.{
  batch_loop-cons, batches_with, assert_batch_continuity-batches_with,
}
use alpha_proof.Commitments.Export.{
  Bundle, VerifiedExport, last_of, leaves_of, export_leaf_set, check_bundle, check_objects,
  check_frozen, check_leaves, check_audit, check_export_batch, check_batches, verify_export,
}

last_of-suc :
    (i : ℕ) (es : List AuditEvent)
    → last_of (λ e. e.sequence) (i + 1) es ≡ last_of (λ e. e.sequence) (suc i) es
last_of-suc i es = ap (λ n. last_of (λ e. e.sequence) n es) (omega arith)

module _ (H : Hashing) (E : EventEncoding) (B : BatchEncoding) where
  audit_loop-last_of :
      (i : ℕ) (p : Option Hash) (es : List AuditEvent) {h : Option Hash}
      → audit_loop H E i p es ≡ ok h
      → last_of (λ e. e.sequence) i es ≡ i + length es
  unfolding audit_loop
  audit_loop-last_of i p [] h = omega arith
  audit_loop-last_of i p (x ∷ es) h =
      let (numbered, _, rest) = audit_loop-cons H E i p x es h in
      let ih = audit_loop-last_of (suc i) (some (audit_event_hash H E x)) es rest in
      rw numbered (last_of-suc i es ∙ ih ∙ omega arith)

  batch_loop-last_of :
      (e : Option Ident) (last : ℕ) (p : Option Hash) (bs : List CommitmentBatch) {l : ℕ}
      → batch_loop H B e last p bs ≡ ok l
      → last_of (λ b. b.last_sequence) last bs ≡ l
  unfolding batch_loop
  batch_loop-last_of e last p [] h = ok-injective h
  batch_loop-last_of e last p (b ∷ bs) h =
      batch_loop-last_of (some b.experiment_id) b.last_sequence (some (commitment_batch_hash H B b))
        bs (batch_loop-cons H B e last p b bs h).1

  for_each-at :
      (bundle : Bundle) (bs : List CommitmentBatch) (i : ℕ) (b : CommitmentBatch)
      → for_each (check_export_batch H B bundle) bs ≡ ok tt
      → get_elem? bs i ≡ some b
      → check_export_batch H B bundle b ≡ ok tt
  for_each-at bundle [] i b h at = ground arith
  for_each-at bundle (x ∷ bs) zero b h at =
      >>-elim (check_export_batch H B bundle x) _ h
        λ first _. subst (λ z. check_export_batch H B bundle z ≡ ok tt) (eq_of_some at) first
  for_each-at bundle (x ∷ bs) (suc i) b h at =
      >>-elim (check_export_batch H B bundle x) _ h λ _ rest. for_each-at bundle bs i b rest at

  check_export_batch-root :
      (bundle : Bundle) (b : CommitmentBatch)
      → check_export_batch H B bundle b ≡ ok tt
      → (merkle_root H (map (λ leaf. leaf.leaf_hash) (leaves_of bundle b)) ≡ ok b.root)
        × (length (leaves_of bundle b) ≡ b.last_sequence - b.first_sequence + 1)
  unfolding check_export_batch
  check_export_batch-root bundle b h =
      let leaves = leaves_of bundle b in
      >>-elim (throw_if (length leaves != b.last_sequence - b.first_sequence + 1) batch_continuity)
        _ h
        λ counted h₁.
          >>-elim
            (throw_if (H.keccak256 (B.leaf_set (export_leaf_set b leaves)) != b.leaves_object_hash)
              commitment_invalid)
            _ h₁
            λ _ h₂.
              >>=-elim (merkle_root H (map (λ leaf. leaf.leaf_hash) leaves)) _ h₂ λ root rooted h₃.
                >>-elim (throw_if (root != b.root) commitment_invalid) _ h₃ λ same _. (
                  rooted ∙ ap ok (!=→≡ _ _ (throw_if-ok _ _ same)),
                  !=→≡ _ _ (throw_if-ok _ _ counted),
                )

  -- The leaf has the sequence number of the event, and its text the hash of the text of the leaf
  -- that is made of the event.
  pub record IsLeafOf (text : CommitmentLeaf → Bytes) (e : AuditEvent) (leaf : CommitmentLeaf)
      : Type 0 where
    pub sequence : leaf.sequence ≡ e.sequence
    pub content : H.keccak256 (text leaf) ≡ H.keccak256 (text (create_leaf H E e))

  check_leaves-cons :
      (text : CommitmentLeaf → Bytes) (e : AuditEvent) (es : List AuditEvent)
      (leaf : CommitmentLeaf) (ls : List CommitmentLeaf)
      → check_leaves H E text (e ∷ es) (leaf ∷ ls) ≡ ok tt
      → IsLeafOf text e leaf × (check_leaves H E text es ls ≡ ok tt)
  unfolding check_leaves
  check_leaves-cons text e es leaf ls h =
      >>-elim
        (throw_if
          (H.keccak256 (text (create_leaf H E e)) != H.keccak256 (text leaf)
            || leaf.sequence != e.sequence)
          commitment_invalid)
        _ h
        λ same rest. (
          record {
            sequence = ground (arith, throw_if-ok _ _ same);
            content = ground (arith, throw_if-ok _ _ same);
          },
          rest,
        )

  check_leaves-at :
      (text : CommitmentLeaf → Bytes) (es : List AuditEvent) (ls : List CommitmentLeaf)
      → check_leaves H E text es ls ≡ ok tt
      → (i : ℕ) (e : AuditEvent) → get_elem? es i ≡ some e
      → (leaf : CommitmentLeaf) × (get_elem? ls i ≡ some leaf) × IsLeafOf text e leaf
  unfolding check_leaves
  check_leaves-at text [] ls h i e at = absurd (cc at)
  check_leaves-at text (x ∷ es) [] h i e at = absurd (cc h)
  check_leaves-at text (x ∷ es) (leaf ∷ ls) h zero e at = (
    leaf,
    refl,
    subst (λ z. IsLeafOf text z leaf) (eq_of_some at) (check_leaves-cons text x es leaf ls h).0,
  )
  check_leaves-at text (x ∷ es) (leaf ∷ ls) h (suc i) e at =
      check_leaves-at text es ls (check_leaves-cons text x es leaf ls h).1 i e at

  -- What is said of an export that is verified.
  pub record IsCommitted (text : CommitmentLeaf → Bytes) (bundle : Bundle) : Type 0 where
    pub chain : (h : Option Hash) × (assert_audit_continuity H E bundle.audit_events ≡ ok h)
    pub one_leaf_each : length bundle.leaves ≡ length bundle.audit_events
    pub leaf_of_event :
        (i : ℕ) (e : AuditEvent)
        → get_elem? bundle.audit_events i ≡ some e
        → (leaf : CommitmentLeaf) × (get_elem? bundle.leaves i ≡ some leaf) × IsLeafOf text e leaf
    pub covered :
        (n : ℕ)
        → batches_with n bundle.batches
          ≡ (if ltb 0 n && leb n (length bundle.audit_events) then 1 else 0)
    pub roots :
        (i : ℕ) (b : CommitmentBatch)
        → get_elem? bundle.batches i ≡ some b
        → (merkle_root H (map (λ leaf. leaf.leaf_hash) (leaves_of bundle b)) ≡ ok b.root)
          × (length (leaves_of bundle b) ≡ b.last_sequence - b.first_sequence + 1)

  check_audit-parts :
      (text : CommitmentLeaf → Bytes) (bundle : Bundle)
      → check_audit H E text bundle ≡ ok tt
      → ((h : Option Hash) × (assert_audit_continuity H E bundle.audit_events ≡ ok h))
        × (length bundle.leaves ≡ length bundle.audit_events)
        × (check_leaves H E text bundle.audit_events bundle.leaves ≡ ok tt)
  unfolding check_audit
  check_audit-parts text bundle h =
      >>=-elim (assert_audit_continuity H E bundle.audit_events) _ h λ last chain h₁.
        >>-elim
          (throw_if
            (any
              (λ event.
                not (
                  includes event.content_hash (map (λ object. object.content_hash) bundle.objects)))
              bundle.audit_events)
            export_incomplete)
          _ h₁
          λ _ h₂.
            >>-elim
              (throw_if (length bundle.leaves != length bundle.audit_events) export_incomplete) _ h₂
              λ same compared. ((last, chain), !=→≡ _ _ (throw_if-ok _ _ same), compared)

  assert_audit_continuity-last_of :
      (es : List AuditEvent) {h : Option Hash}
      → assert_audit_continuity H E es ≡ ok h
      → last_of (λ e. e.sequence) 0 es ≡ length es
  unfolding assert_audit_continuity
  assert_audit_continuity-last_of es h =
      >>-elim (for_each check_audit_event es) _ h
        λ _ loop. audit_loop-last_of 0 none es loop ∙ omega arith

  assert_batch_continuity-last_of :
      (bs : List CommitmentBatch) {l : ℕ}
      → assert_batch_continuity H B bs ≡ ok l
      → last_of (λ b. b.last_sequence) 0 bs ≡ l
  unfolding assert_batch_continuity
  assert_batch_continuity-last_of bs h =
      >>-elim (for_each check_batch bs) _ h λ _ loop. batch_loop-last_of none 0 none bs loop

  -- An export that is verified has a continuous audit chain and as many leaves as events, and the
  -- leaf at the place of each event has its sequence number, and a text of the same hash as that of
  -- the leaf made of the event; each
  -- sequence number from one to the number of events is in the range of exactly one batch, and
  -- every batch has the Merkle root of the leaves in its range, as many as the range is long.
  pub verify_export-IsCommitted :
      (text : CommitmentLeaf → Bytes) (bundle : Bundle) {r : VerifiedExport}
      → verify_export H E B text bundle ≡ ok r
      → IsCommitted text bundle
  unfolding verify_export check_batches
  verify_export-IsCommitted text bundle h = >>-elim (check_bundle H bundle) _ h λ _ h₁.
      >>-elim (check_objects bundle) _ h₁ λ _ h₂. >>-elim (check_frozen bundle) _ h₂ λ _ h₃.
        >>-elim (check_audit H E text bundle) _ h₃ λ audited h₄.
          >>-elim (check_batches H B bundle) _ h₄ λ batched _.
            >>=-elim (assert_batch_continuity H B bundle.batches) _ batched λ last chained b₁.
              >>-elim
                (throw_if
                  (last_of (λ b. b.last_sequence) 0 bundle.batches
                    != last_of (λ e. e.sequence) 0 bundle.audit_events)
                  export_incomplete)
                _ b₁
                λ complete b₂.
                  >>-elim (for_each (check_export_batch H B bundle) bundle.batches) _ b₂
                    λ checked _.
                      let (chain, leaves, compared) = check_audit-parts text bundle audited in
                      let ends =
                        sym (assert_batch_continuity-last_of bundle.batches chained)
                        ∙ !=→≡ _ _ (throw_if-ok _ _ complete)
                        ∙ assert_audit_continuity-last_of bundle.audit_events chain.1 in
                      record {
                        chain = chain;
                        one_leaf_each = leaves;
                        leaf_of_event =
                            check_leaves-at text bundle.audit_events bundle.leaves compared;
                        covered = λ n.
                            subst
                              (λ l.
                                batches_with n bundle.batches
                                ≡ (if ltb 0 n && leb n l then 1 else 0))
                              ends
                              (assert_batch_continuity-batches_with H B bundle.batches n chained);
                        roots = λ i b at.
                            check_export_batch-root bundle b
                              (for_each-at bundle bundle.batches i b checked at);
                      }
