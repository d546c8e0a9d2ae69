-- ===== src/Accounting/Apply/Once.antt =====
-- A receipt that is applied again, and one of an operation that is taken.
-- Code: packages/accounting/src/index.ts (`applyReceipt`).
use alpha_proof.Base.{
  ◌+◌, ◌≡◌, ◌≢◌, refl, sym, subst, ◌∙◌, find-push, none, some, ◌!=◌, inl, inr, Option-cases, ok,
  err, operation_conflict, throw_if, throw_if-ok, >>=-elim, >>-elim, arith,
}
use alpha_proof.Accounting.State.{Portfolio, AppliedReceipt}
use alpha_proof.Accounting.Receipt.{Receipt}
use alpha_proof.Accounting.Check.{assert_portfolio}
use alpha_proof.Accounting.Check.Sound.{IsValid, assert_portfolio-IsValid, IsValid-assert_portfolio}
use alpha_proof.Accounting.Check.Schema.{parse_receipt}
use alpha_proof.Accounting.Apply.{
  Hasher, effect, check_receipt, sort_state, record_receipt, apply_new, prior_receipt, apply_parsed,
  apply_receipt,
}
use alpha_proof.Accounting.Conservation.Receipts.{effect-SameIdentity, check_unique-UniqueIds}

-- What an accepted call did: the state was valid, the receipt well formed, and either it was in
-- the log or its effect passed the checks.
pub record Accepted (h : Hasher) (s : Portfolio) (r : Receipt) (t : Portfolio) : Type 0 where
  pub valid : IsValid s
  pub parsed : parse_receipt r ≡ ok r
  pub outcome : apply_parsed h s r (prior_receipt s r) ≡ ok t

parse_receipt-same : (r : Receipt) {p : Receipt} → parse_receipt r ≡ ok p → p ≡ r
unfolding parse_receipt
parse_receipt-same r h = ground arith

pub apply_receipt-Accepted :
    (h : Hasher) (s : Portfolio) (r : Receipt) {t : Portfolio}
    → apply_receipt h s r ≡ ok t
    → Accepted h s r t
unfolding apply_receipt
apply_receipt-Accepted h s r e = >>=-elim (assert_portfolio s) _ e λ u checked e₁.
    let v = assert_portfolio-IsValid s checked in
    >>=-elim (parse_receipt r) _ e₁
      λ p parsed e₂. let q = parse_receipt-same r parsed in ground (arith, v.0, v.1)

pub Accepted-apply_receipt :
    (h : Hasher) (s : Portfolio) (r : Receipt) (t : Portfolio)
    → Accepted h s r t
    → apply_receipt h s r ≡ ok t
unfolding apply_receipt
Accepted-apply_receipt h s r t a = rw (IsValid-assert_portfolio s a.valid, a.parsed) a.outcome

-- The state that a new receipt leads to, before the closing checks.
pub record Fresh (h : Hasher) (s : Portfolio) (r : Receipt) (t : Portfolio) : Type 0 where
  pub state : Portfolio
  pub checked : check_receipt s r ≡ ok tt
  pub applied : effect h s r.base r.kind ≡ ok state
  pub result : t ≡ sort_state (record_receipt h s r state)
  pub valid : IsValid t

pub apply_new-Fresh :
    (h : Hasher) (s : Portfolio) (r : Receipt) {t : Portfolio}
    → apply_new h s r ≡ ok t
    → Fresh h s r t
unfolding apply_new
apply_new-Fresh h s r {t} e = >>-elim (check_receipt s r) _ e λ checked e₁.
    >>=-elim (effect h s r.base r.kind) _ e₁ λ u applied e₂.
      let v = assert_portfolio-IsValid _ e₂ in
      record { state = u; checked = checked; applied = applied; result = v.0; valid = rw v.0 v.1 }

-- The log names the receipt, with its content.
pub record Logged (h : Hasher) (t : Portfolio) (r : Receipt) : Type 0 where
  pub entry : AppliedReceipt
  pub prior : prior_receipt t r ≡ some entry
  pub content : entry.receipt_hash ≡ h.receipt_hash r

Fresh-Logged :
    (h : Hasher) (s : Portfolio) (r : Receipt) (t : Portfolio)
    → IsValid s
    → prior_receipt s r ≡ none
    → Fresh h s r t
    → Logged h t r
unfolding prior_receipt sort_state record_receipt
Fresh-Logged h s r t v absent f =
    let kept =
      (effect-SameIdentity h s r.base r.kind (check_unique-UniqueIds s v.unique_ids)
        f.applied).applied_receipts in
    let entry : AppliedReceipt = record {
      operation_id = r.base.operation_id;
      receipt_hash = h.receipt_hash r;
      version_applied = s.version + 1;
    } in
    record {
      entry = entry;
      prior = rw (f.result, kept) (find-push _ s.applied_receipts entry absent ∙ ground arith);
      content = refl;
    }

-- A receipt that is not in the log is applied afresh.
pub Accepted-Fresh :
    (h : Hasher) (s : Portfolio) (r : Receipt) {t : Portfolio}
    → Accepted h s r t
    → prior_receipt s r ≡ none
    → Fresh h s r t
unfolding apply_parsed
Accepted-Fresh h s r a absent = apply_new-Fresh h s r (rw (absent, apply_parsed) at a.outcome)

-- One that is in the log changes nothing.
pub Accepted-same :
    (h : Hasher) (s : Portfolio) (r : Receipt) {t : Portfolio} {p : AppliedReceipt}
    → Accepted h s r t
    → prior_receipt s r ≡ some p
    → (t ≡ s) × (p.receipt_hash ≡ h.receipt_hash r)
unfolding apply_parsed
Accepted-same h s r {p = p} a found =
    >>-elim (throw_if (p.receipt_hash != h.receipt_hash r) operation_conflict) _
      (rw (found, apply_parsed) at a.outcome) λ same e. ground (arith, throw_if-ok _ _ same)

-- After an accepted call the state is valid, and its log names the receipt.
pub apply_receipt-Logged :
    (h : Hasher) (s : Portfolio) (r : Receipt) {t : Portfolio}
    → apply_receipt h s r ≡ ok t
    → IsValid t × Logged h t r
unfolding apply_parsed
apply_receipt-Logged h s r {t} e =
    let a = apply_receipt-Accepted h s r e in
    elim (Option-cases (prior_receipt s r)) [
      | inl absent ↦
          let f = Accepted-Fresh h s r a absent in (f.valid, Fresh-Logged h s r t a.valid absent f)
      | inr (p, found) ↦
          let (e₁, same) = Accepted-same h s r a found in
          subst (λ x. IsValid x × Logged h x r) (sym e₁)
            (a.valid, record { entry = p; prior = found; content = same })
    ]

-- Applying an accepted receipt again is accepted, and changes nothing.
pub apply_receipt-apply_receipt :
    (h : Hasher) (s : Portfolio) (r : Receipt) {t : Portfolio}
    → apply_receipt h s r ≡ ok t
    → apply_receipt h t r ≡ ok t
unfolding apply_parsed
apply_receipt-apply_receipt h s r {t} e =
    let (v, l) = apply_receipt-Logged h s r e in
    Accepted-apply_receipt h t r t (record {
      valid = v;
      parsed = (apply_receipt-Accepted h s r e).parsed;
      outcome = rw l.prior (ground (arith, l.content));
    })

-- After an accepted receipt, a well-formed receipt under the same operation whose content has
-- another hash is refused as a conflict.
pub apply_receipt-conflict :
    (h : Hasher) (s : Portfolio) (r other : Receipt) {t : Portfolio}
    → apply_receipt h s r ≡ ok t
    → parse_receipt other ≡ ok other
    → other.base.operation_id ≡ r.base.operation_id
    → h.receipt_hash other ≢ h.receipt_hash r
    → apply_receipt h t other ≡ err operation_conflict
unfolding apply_receipt apply_parsed prior_receipt
apply_receipt-conflict h s r other {t} e parsed same differs =
    let (v, l) = apply_receipt-Logged h s r e in
    rw (IsValid-assert_portfolio t v, parsed, same, l.prior) (ground (arith, l.content))
