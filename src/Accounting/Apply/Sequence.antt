-- ===== src/Accounting/Apply/Sequence.antt =====
-- Receipts one after another: their versions, their times and the deadline.
-- Code: packages/accounting/src/index.ts (`applyReceipt`).
use alpha_proof.Base.{
  ℕ, ◌+◌, ◌≤◌, ◌≡◌, ◌≢◌, ◌⊎◌, refl, sym, subst, ◌∙◌, true, false, none, some, find-push, ok, err,
  stale_portfolio, arith, inl, inr, Option-cases,
}
use alpha_proof.Accounting.State.{Portfolio, AppliedReceipt}
use alpha_proof.Accounting.Receipt.{Receipt, ReceiptKind, is_transfer_receipt, is_close}
use alpha_proof.Accounting.Check.Sound.{IsValid-assert_portfolio}
use alpha_proof.Accounting.Check.Schema.{parse_receipt}
use alpha_proof.Accounting.Apply.{
  Hasher, check_receipt, sort_state, record_receipt, apply_new, prior_receipt, apply_parsed,
  apply_receipt,
}
use alpha_proof.Accounting.Apply.Once.{
  apply_receipt-Accepted, Accepted-Fresh, Accepted-same, apply_receipt-Logged,
}
use alpha_proof.Accounting.Conservation.Receipts.{
  effect-Kept, effect-SameIdentity, check_unique-UniqueIds,
}

-- What a receipt that is new to the log does to version, time and identity.
pub record Advances (s : Portfolio) (r : Receipt) (t : Portfolio) : Type 0 where
  pub expected : r.base.expected_portfolio_version ≡ s.version
  pub version : t.version ≡ s.version + 1
  pub time : t.last_applied_at ≡ some r.base.observed_at
  pub forward : (last : ℕ) → s.last_applied_at ≡ some last → last ≤ r.base.observed_at
  pub experiment : t.experiment_id ≡ s.experiment_id
  pub scenario : t.scenario_id ≡ s.scenario_id
  pub provenance : t.result_provenance ≡ s.result_provenance

check_receipt-expected :
    (s : Portfolio) (r : Receipt)
    → check_receipt s r ≡ ok tt
    → r.base.expected_portfolio_version ≡ s.version
unfolding check_receipt
check_receipt-expected s r h = ground arith

check_receipt-forward :
    (s : Portfolio) (r : Receipt)
    → check_receipt s r ≡ ok tt
    → (last : ℕ) → s.last_applied_at ≡ some last
    → last ≤ r.base.observed_at
unfolding check_receipt
check_receipt-forward s r h last e = ground arith

-- An accepted receipt that is new to the log expects the version that it is applied to and is not
-- before the last one; it adds one to the version, stamps its time, and keeps experiment,
-- scenario and provenance.
pub apply_receipt-Advances :
    (h : Hasher) (s : Portfolio) (r : Receipt) {t : Portfolio}
    → apply_receipt h s r ≡ ok t
    → prior_receipt s r ≡ none
    → Advances s r t
unfolding sort_state record_receipt
apply_receipt-Advances h s r {t} e absent =
    let a = apply_receipt-Accepted h s r e in
    let f = Accepted-Fresh h s r a absent in
    let i =
      effect-SameIdentity h s r.base r.kind (check_unique-UniqueIds s a.valid.unique_ids)
        f.applied in
    subst (λ x. Advances s r x) (sym f.result)
      (record {
        expected = check_receipt-expected s r f.checked;
        version = refl;
        time = refl;
        forward = check_receipt-forward s r f.checked;
        experiment = i.experiment_id;
        scenario = i.scenario_id;
        provenance = i.result_provenance;
      })

-- A receipt is bound to the portfolio that it names.
pub record IsBound (s : Portfolio) (r : Receipt) : Type 0 where
  pub experiment : r.base.experiment_id ≡ s.experiment_id
  pub scenario : r.base.scenario_id ≡ s.scenario_id
  pub provenance : r.base.result_provenance ≡ s.result_provenance

prior_receipt-other :
    (h : Hasher) (s : Portfolio) (a b : Receipt) {t : Portfolio}
    → apply_receipt h s a ≡ ok t
    → prior_receipt s a ≡ none
    → prior_receipt s b ≡ none
    → b.base.operation_id ≢ a.base.operation_id
    → prior_receipt t b ≡ none
unfolding prior_receipt sort_state record_receipt
prior_receipt-other h s a b e absent_a absent_b differ =
    let c = apply_receipt-Accepted h s a e in
    let f = Accepted-Fresh h s a c absent_a in
    let i =
      effect-SameIdentity h s a.base a.kind (check_unique-UniqueIds s c.valid.unique_ids)
        f.applied in
    rw (f.result, i.applied_receipts) (find-push _ s.applied_receipts _ absent_b ∙ ground arith)

check_receipt-stale :
    (t : Portfolio) (b : Receipt)
    → IsBound t b
    → b.base.expected_portfolio_version ≢ t.version
    → check_receipt t b ≡ err stale_portfolio
unfolding check_receipt
check_receipt-stale t b bound differ = ground arith

-- Of two receipts of different operations that are new to the log and expect its version, once
-- the first is accepted, the second is refused as stale, if it is well formed and names the
-- portfolio's experiment, scenario and provenance.
pub apply_receipt-stale :
    (h : Hasher) (s : Portfolio) (a b : Receipt) {t : Portfolio}
    → apply_receipt h s a ≡ ok t
    → prior_receipt s a ≡ none
    → prior_receipt s b ≡ none
    → b.base.operation_id ≢ a.base.operation_id
    → parse_receipt b ≡ ok b
    → IsBound s b
    → b.base.expected_portfolio_version ≡ s.version
    → apply_receipt h t b ≡ err stale_portfolio
unfolding apply_receipt apply_parsed apply_new
apply_receipt-stale h s a b {t} e absent_a absent_b differ parsed bound version =
    let v = (apply_receipt-Logged h s a e).0 in
    let m = apply_receipt-Advances h s a e absent_a in
    let bound' : IsBound t b = ground arith in
    rw (
      IsValid-assert_portfolio t v,
      parsed,
      prior_receipt-other h s a b e absent_a absent_b differ,
      check_receipt-stale t b bound' (omega (arith, version, m.version)),
    )

-- The log of a portfolio names the receipt with its hash, and the result is that portfolio.
pub record InLog (h : Hasher) (s : Portfolio) (r : Receipt) (t : Portfolio) : Type 0 where
  pub entry : AppliedReceipt
  pub prior : prior_receipt s r ≡ some entry
  pub content : entry.receipt_hash ≡ h.receipt_hash r
  pub unchanged : t ≡ s

check_receipt-open :
    (s : Portfolio) (r : Receipt) {c : ℕ}
    → check_receipt s r ≡ ok tt
    → s.closed_at ≡ some c
    → is_transfer_receipt r.kind ≡ true
unfolding check_receipt
check_receipt-open s r h e = ground arith

is_close-transfer : (k : ReceiptKind) → is_transfer_receipt k ≡ true → is_close k ≡ false
is_close-transfer (ReceiptKind.close _) h = cc
is_close-transfer _ h = refl

-- Once a portfolio is closed, an accepted receipt is a stage of a transfer, or it is in the log
-- with the same hash and changes nothing; and the closing time and the deadline hash stay as they
-- are.
pub apply_receipt-closed :
    (h : Hasher) (s : Portfolio) (r : Receipt) {t : Portfolio} {closed : ℕ}
    → apply_receipt h s r ≡ ok t
    → s.closed_at ≡ some closed
    → (t.closed_at ≡ some closed)
      × (t.deadline_state_hash ≡ s.deadline_state_hash)
      × ((is_transfer_receipt r.kind ≡ true) ⊎ InLog h s r t)
unfolding sort_state record_receipt
apply_receipt-closed h s r {t} {closed} e c =
    let a = apply_receipt-Accepted h s r e in
    elim (Option-cases (prior_receipt s r)) [
      | inl absent ↦
          let f = Accepted-Fresh h s r a absent in
          let stage = check_receipt-open s r f.checked c in
          let k =
            (effect-Kept h s r.base r.kind (is_close-transfer r.kind stage)
              (check_unique-UniqueIds s a.valid.unique_ids) f.applied).untouched in
          rw f.result (k.closed_at ∙ c, k.deadline_state_hash, inl stage)
      | inr (p, found) ↦
          let (same, content) = Accepted-same h s r a found in
          rw same (
            c,
            refl,
            inr (record { entry = p; prior = found; content = content; unchanged = refl }),
          )
    ]
