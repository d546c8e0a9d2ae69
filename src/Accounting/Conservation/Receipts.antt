-- ===== src/Accounting/Conservation/Receipts.antt =====
-- The value of a portfolio over a receipt of any kind, and the closing checks.
-- Code: packages/accounting/src/index.ts (`applyReceipt`).
use alpha_proof.Base.{
  ℕ, ◌≤◌, ◌≡◌, refl, true, false, distinct, map, List, ok, >>-elim, arith, total_by-sort_by,
}
use alpha_proof.Accounting.State.{
  Portfolio, CashBalance, Reservation, AccountingPosition, AccountingReceivable, FeePayable,
  RecognizedCost,
}
use alpha_proof.Accounting.Receipt.{Receipt, ReceiptBase, ReceiptKind, is_close}
use alpha_proof.Accounting.Books.{gross_assets, payable_total, unique}
use alpha_proof.Accounting.Check.{check_unique, check_conservation, assert_portfolio}
use alpha_proof.Accounting.Check.Sound.{
  IsValid, assert_portfolio-IsValid, check_solvency-le, Balanced, check_conservation-Balanced,
  Balanced-check_conservation,
}
use alpha_proof.Accounting.Apply.{Hasher, effect, close_portfolio, sort_state, record_receipt}
use alpha_proof.Accounting.Conservation.{Conserves, Kept, SameIdentity, UniqueIds}
use alpha_proof.Accounting.Conservation.Local.{
  reserve-Kept, charge-Kept, approve-Kept, exchange-Kept, settle_payable-Kept,
}
use alpha_proof.Accounting.Conservation.Positions.{invest-Kept, divest-Kept, accrue_index-Kept}
use alpha_proof.Accounting.Conservation.Transfers.{
  fail_source-Kept, confirm_burn-Kept, mark_ready-Kept, mark_delayed-Kept, mark_retry-Kept,
  settle-Kept,
}

close_portfolio-Conserves :
    (h : Hasher) (s : Portfolio) (r : ReceiptBase) (at : ℕ) {t : Portfolio}
    → close_portfolio h s r at ≡ ok t
    → Conserves s t
unfolding close_portfolio
close_portfolio-Conserves h s r at e = ground arith

-- A receipt of any kind but a closure conserves value and keeps the identity and the log.
pub effect-Kept :
    (h : Hasher) (s : Portfolio) (r : ReceiptBase) (k : ReceiptKind) {t : Portfolio}
    → is_close k ≡ false
    → UniqueIds s
    → effect h s r k ≡ ok t
    → Kept s t
unfolding effect
effect-Kept h s r ReceiptKind.no_effect o u e = ground arith
effect-Kept h s r (ReceiptKind.reserve id view amount cs) o u e =
    (reserve-Kept s r id view amount cs e)
effect-Kept h s r (ReceiptKind.cost cs) o u e = (charge-Kept s r cs e)
effect-Kept h s r (ReceiptKind.approve a cs) o u e = (approve-Kept s r a cs e)
effect-Kept h s r (ReceiptKind.deposit d cs) o u e = (invest-Kept s r d cs e)
effect-Kept h s r (ReceiptKind.withdraw w cs) o u e = (divest-Kept s r w cs u e)
effect-Kept h s r (ReceiptKind.swap w cs) o u e = (exchange-Kept s r w cs e)
effect-Kept h s r (ReceiptKind.payable_settled id view) o u e = (settle_payable-Kept s id view u e)
effect-Kept h s r (ReceiptKind.transfer_source_failed id cs) o u e =
    (fail_source-Kept s r id cs u e)
effect-Kept h s r (ReceiptKind.transfer_burned b cs) o u e = (confirm_burn-Kept s r b cs u e)
effect-Kept h s r (ReceiptKind.transfer_ready id cs) o u e = (mark_ready-Kept s r id cs e)
effect-Kept h s r (ReceiptKind.transfer_delayed id cs) o u e = (mark_delayed-Kept s r id cs e)
effect-Kept h s r (ReceiptKind.transfer_destination_retry id cs) o u e =
    (mark_retry-Kept s r id cs e)
effect-Kept h s r (ReceiptKind.transfer_settled id credit cs) o u e =
    (settle-Kept s r id credit cs u e)
effect-Kept h s r (ReceiptKind.accrue id n d cs) o u e = (accrue_index-Kept s r id n d cs e)
effect-Kept h s r (ReceiptKind.close at) o u e = cc

-- A receipt of any kind that is applied to a portfolio with unique identifiers conserves value:
-- assets and recognized costs together grow exactly by what is payable and by the modeled profit.
pub effect-Conserves :
    (h : Hasher) (s : Portfolio) (r : ReceiptBase) (k : ReceiptKind) {t : Portfolio}
    → UniqueIds s
    → effect h s r k ≡ ok t
    → Conserves s t
unfolding effect
effect-Conserves h s r (ReceiptKind.close at) u e = close_portfolio-Conserves h s r at e
effect-Conserves h s r k u e = (effect-Kept h s r k refl u e).conserves

-- The effect of a receipt of any kind on a portfolio with unique identifiers leaves experiment,
-- scenario, provenance, attempt limit, version, balance views, log and last time as they are.
pub effect-SameIdentity :
    (h : Hasher) (s : Portfolio) (r : ReceiptBase) (k : ReceiptKind) {t : Portfolio}
    → UniqueIds s
    → effect h s r k ≡ ok t
    → SameIdentity s t
unfolding effect close_portfolio
effect-SameIdentity h s r (ReceiptKind.close at) u e = ground arith
effect-SameIdentity h s r k u e = (effect-Kept h s r k refl u e).untouched.identity

unique-distinct {ℓ} :
    {T : Type ℓ} (items : List T) (key : T → ℕ)
    → unique items key ≡ ok tt
    → distinct (map key items) ≡ true
unfolding unique
unique-distinct items key h = ground arith

pub check_unique-UniqueIds : (s : Portfolio) → check_unique s ≡ ok tt → UniqueIds s
unfolding check_unique
check_unique-UniqueIds s h = >>-elim (unique s.balance_views (λ item. item.view_id)) _ h λ u₁ h₁.
    >>-elim (unique s.cash (λ item. item.balance_family_id)) _ h₁ λ u₂ h₂.
      >>-elim (unique s.reservations (λ item. item.reservation_id)) _ h₂ λ u₃ h₃.
        >>-elim (unique s.positions (λ item. item.position_id)) _ h₃ λ u₄ h₄.
          >>-elim (unique s.receivables (λ item. item.transfer_id)) _ h₄ λ u₅ h₅.
            >>-elim (unique s.receivables (λ item. item.message_identity)) _ h₅ λ u₆ h₆.
              >>-elim (unique s.payables (λ item. item.payable_id)) _ h₆ λ u₇ h₇. record {
                reservations = unique-distinct s.reservations _ u₃;
                positions = unique-distinct s.positions _ u₄;
                receivables = unique-distinct s.receivables _ u₅;
                payables = unique-distinct s.payables _ u₇;
              }

sort_state-gross_assets : (s : Portfolio) → gross_assets (sort_state s) ≡ gross_assets s
unfolding sort_state
sort_state-gross_assets s = omega (
  arith,
  total_by-sort_by {A = CashBalance} (λ item. item.amount_usdc_minor)
      (λ item. item.balance_family_id) s.cash,
  total_by-sort_by {A = Reservation} (λ item. item.amount_usdc_minor) (λ item. item.reservation_id)
      s.reservations,
  total_by-sort_by {A = AccountingPosition} (λ item. item.book_value_usdc_minor)
      (λ item. item.position_id) s.positions,
  total_by-sort_by {A = AccountingReceivable} (λ item. item.amount_usdc_minor)
      (λ item. item.transfer_id) s.receivables,
)

sort_state-Balanced : (s : Portfolio) → Balanced s → Balanced (sort_state s)
unfolding sort_state
sort_state-Balanced s b = omega (
  arith,
  sort_state-gross_assets s,
  total_by-sort_by {A = FeePayable} (λ item. item.amount_usdc_minor) (λ item. item.payable_id)
      s.payables,
  total_by-sort_by {A = RecognizedCost} (λ item. item.cost.amount_usdc_minor)
      (λ item. item.cost.cost_id) s.recognized_costs,
)

pub IsValid-Balanced : (s : Portfolio) → IsValid s → Balanced s
IsValid-Balanced s v = check_conservation-Balanced s (check_solvency-le s v.solvent) v.conserved

-- From an accepted portfolio, the state that a receipt leads to passes the conservation check
-- whenever it is solvent: that check can refuse no receipt by itself.
pub effect-check_conservation :
    (h : Hasher) (s : Portfolio) (r : Receipt) {accepted t : Portfolio}
    → assert_portfolio s ≡ ok accepted
    → effect h s r.base r.kind ≡ ok t
    → (let u = sort_state (record_receipt h s r t) in payable_total u.payables ≤ gross_assets u)
    → check_conservation (sort_state (record_receipt h s r t)) ≡ ok tt
unfolding record_receipt
effect-check_conservation h s r {accepted} {t} valid e solvent =
    let v = (assert_portfolio-IsValid s valid).1 in
    let c = effect-Conserves h s r.base r.kind (check_unique-UniqueIds s v.unique_ids) e in
    let b = IsValid-Balanced s v in
    Balanced-check_conservation _ solvent
      (sort_state-Balanced (record_receipt h s r t) (ground arith))
