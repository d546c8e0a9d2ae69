-- ===== src/Valuation/Accruals/Chain.antt =====
-- The accruals of a checkpoint one after another.
-- Code: packages/valuation/src/index.ts (`checkpointPortfolio`).
use alpha_proof.Base.{
  ◌+◌, ◌≡◌, ◌⊎◌, refl, sym, subst, ap, ◌∙◌, List, [], ◌∷◌, ◌++◌, push, Option-cases, inl, inr, ok,
  ok-injective, >>=-elim,
}
use alpha_proof.Accounting.State.{Ident, Hash, Portfolio}
use alpha_proof.Accounting.Receipt.{Receipt}
use alpha_proof.Accounting.Check.Sound.{IsValid}
use alpha_proof.Accounting.Apply.{Hasher, prior_receipt, apply_receipt}
use alpha_proof.Accounting.Apply.Once.{
  Logged, apply_receipt-Accepted, Accepted-Fresh, Accepted-same, apply_receipt-Logged,
}
use alpha_proof.Accounting.Apply.Sequence.{InLog, apply_receipt-Advances}
use alpha_proof.Valuation.State.{AccrualInput, CheckpointHasher}
use alpha_proof.Valuation.{accrual_receipt, apply_accruals}
use alpha_proof.Valuation.Accruals.{CarriedOver, CarriedOver-refl, CarriedOver-trans, Accrues}
use alpha_proof.Valuation.Accruals.Fresh.{Fresh-CarriedOver, Fresh-Accrues}

append-nil : (xs : List Hash) → xs ++ [] ≡ xs
append-nil [] = refl
append-nil (x ∷ xs) = ap (λ ys. x ∷ ys) (append-nil xs)

push-append : (xs : List Hash) (x : Hash) (ys : List Hash) → push xs x ++ ys ≡ xs ++ x ∷ ys
push-append [] x ys = refl
push-append (z ∷ zs) x ys = ap (λ l. z ∷ l) (push-append zs x ys)

-- One accrual by its receipt: it was in the log and changes nothing, or it moves its position and
-- adds one to the version; either way it is in the log then.
pub record Applies (h : Hasher) (r : Receipt) (a : AccrualInput) (s t : Portfolio) : Type 0 where
  pub carried : CarriedOver s t
  pub valid : IsValid t
  pub logged : Logged h t r
  pub effect : InLog h s r t ⊎ (Accrues a s t × (t.version ≡ s.version + 1))

-- A portfolio, the accruals applied to it in their order, the portfolio that they lead to, and the
-- hashes of their receipts.
pub data Accrued (h : CheckpointHasher) (id : Ident)
    : Portfolio → List AccrualInput → Portfolio → List Hash → Type 0 where
  done : {s : Portfolio} → Accrued h id s [] s []
  next :
      {s mid t : Portfolio} (a : AccrualInput) {later : List AccrualInput} {hashes : List Hash}
      → Applies h.accounting (accrual_receipt h id s a) a s mid
      → Accrued h id mid later t hashes
      → Accrued h id s (a ∷ later) t (h.accounting.receipt_hash (accrual_receipt h id s a) ∷ hashes)

apply_receipt-Applies :
    (h : CheckpointHasher) (id : Ident) (s : Portfolio) (a : AccrualInput) {t : Portfolio}
    → apply_receipt h.accounting s (accrual_receipt h id s a) ≡ ok t
    → Applies h.accounting (accrual_receipt h id s a) a s t
unfolding accrual_receipt
apply_receipt-Applies h id s a {t} e =
    let r = accrual_receipt h id s a in
    let accepted = apply_receipt-Accepted h.accounting s r e in
    let (valid, logged) = apply_receipt-Logged h.accounting s r e in
    elim (Option-cases (prior_receipt s r)) [
      | inl absent ↦
          let f = Accepted-Fresh h.accounting s r accepted absent in
          record {
            carried = Fresh-CarriedOver h.accounting s r _ _ _ refl f;
            valid = valid;
            logged = logged;
            effect = inr (
              Fresh-Accrues h.accounting s r a refl refl refl f,
              (apply_receipt-Advances h.accounting s r e absent).version,
            );
          }
      | inr (p, found) ↦
          let (same, content) = Accepted-same h.accounting s r accepted found in
          record {
            carried = subst (CarriedOver s) (sym same) (CarriedOver-refl s);
            valid = valid;
            logged = logged;
            effect = inl (record { entry = p; prior = found; content = content; unchanged = same });
          }
    ]

-- What a run of accruals has led to, with the hashes that were there before it.
pub record Ran (h : CheckpointHasher) (id : Ident) (s : Portfolio) (hashes : List Hash)
    (accruals : List AccrualInput) (t : Portfolio) (out : List Hash) : Type 0 where
  pub added : List Hash
  pub steps : Accrued h id s accruals t added
  pub carried : CarriedOver s t
  pub valid : IsValid t
  pub all_hashes : out ≡ hashes ++ added

pub apply_accruals-Ran :
    (h : CheckpointHasher) (id : Ident) (s : Portfolio) (hashes : List Hash)
    (accruals : List AccrualInput) {t : Portfolio} {out : List Hash}
    → IsValid s
    → apply_accruals h id s hashes accruals ≡ ok (t, out)
    → Ran h id s hashes accruals t out
unfolding apply_accruals
apply_accruals-Ran h id s hashes [] {t} {out} v e =
    subst (λ x. Ran h id s hashes [] x.0 x.1) (ok-injective e)
      (record {
        added = [];
        steps = Accrued.done;
        carried = CarriedOver-refl s;
        valid = v;
        all_hashes = sym (append-nil hashes);
      })
apply_accruals-Ran h id s hashes (a ∷ later) {t} {out} v e =
    let r = accrual_receipt h id s a in
    >>=-elim (apply_receipt h.accounting s r) _ e λ mid applied rest.
      let first = apply_receipt-Applies h id s a applied in
      let hash = h.accounting.receipt_hash r in
      let u = apply_accruals-Ran h id mid (push hashes hash) later first.valid rest in
      record {
        added = hash ∷ u.added;
        steps = Accrued.next a first u.steps;
        carried = CarriedOver-trans s mid t first.carried u.carried;
        valid = u.valid;
        all_hashes = u.all_hashes ∙ push-append hashes hash u.added;
      }
