-- ===== src/Accounting/Effects/Local.antt =====
-- The receipts that move cash on one network: reservations, costs, approvals, swaps, payables.
-- Code: packages/accounting/src/index.ts (`applyReceipt`, its branches of these kinds).
use alpha_proof.Base.{
  ℕ, ◌-◌, Bool, ◌||◌, Option, none, some, List, [], ◌∷◌, leb, ltb, ◌==◌, ◌!=◌, if◌then◌else◌, find,
  any, filter, update_first, push, accounting_invariant, payable_not_found, Result, ok, ◌>>=◌, ◌>>◌,
  throw_if, or_throw,
}
use alpha_proof.Accounting.State.{
  Ident, Portfolio, BalanceView, Reservation, FeePayable, Allowance, AccountingCost,
}
use alpha_proof.Accounting.Receipt.{ReceiptBase, Approval, Swap}
use alpha_proof.Accounting.Books.{family_for_view, debit_cash, credit_cash, apply_costs}

-- `costs.length !== 0`
abbrev pub has_costs : List AccountingCost → Bool
has_costs [] = Bool.false
has_costs (_ ∷ _) = Bool.true

abbrev pub reservation_is : Ident → Reservation → Bool
reservation_is reservation_id item = item.reservation_id == reservation_id

abbrev pub payable_is : Ident → FeePayable → Bool
payable_is payable_id item = item.payable_id == payable_id

abbrev pub allowance_is : Ident → Allowance → Bool
allowance_is allowance_id item = item.allowance_id == allowance_id

abbrev pub reservation_of : ReceiptBase → Ident → ℕ → BalanceView → Reservation
reservation_of receipt reservation_id amount view = record {
  reservation_id = reservation_id;
  operation_id = receipt.operation_id;
  balance_family_id = view.balance_family_id;
  network_id = view.network_id;
  asset_id = view.asset_id;
  amount_usdc_minor = amount;
}

-- `RESERVE`
unfoldable pub reserve :
    Portfolio → ReceiptBase → Ident → Ident → ℕ → List AccountingCost → Result Portfolio
reserve state receipt reservation_id cash_view_id amount costs = do
  throw_if (has_costs costs) accounting_invariant
  throw_if (any (reservation_is reservation_id) state.reservations) accounting_invariant
  view ← family_for_view state cash_view_id
  debited ← debit_cash state view.balance_family_id amount
  ok (record debited {
    reservations = push debited.reservations (reservation_of receipt reservation_id amount view);
  })

-- `COST`
unfoldable pub charge : Portfolio → ReceiptBase → List AccountingCost → Result Portfolio
charge state receipt costs = apply_costs state receipt costs 0

-- A sufficient allowance takes no cost; any other approval recognizes its costs.
unfoldable pub charge_approval :
    Portfolio → ReceiptBase → Option Allowance → Approval → List AccountingCost → Result Portfolio
charge_approval state receipt none approval costs = apply_costs state receipt costs 0
charge_approval state receipt (some allowance) approval costs =
    if leb approval.amount_minor allowance.amount_minor
    then (do throw_if (has_costs costs) accounting_invariant; ok state)
    else apply_costs state receipt costs 0

abbrev allowance_of : Approval → Allowance
allowance_of approval = record {
  allowance_id = approval.allowance_id;
  network_id = approval.network_id;
  asset_id = approval.asset_id;
  spender_id = approval.spender_id;
  amount_minor = approval.amount_minor;
}

abbrev changes_identity : Option Allowance → Approval → Bool
changes_identity none approval = Bool.false
changes_identity (some allowance) approval =
    allowance.network_id != approval.network_id
    || allowance.asset_id != approval.asset_id
    || allowance.spender_id != approval.spender_id

abbrev put_allowance : Option Allowance → Approval → List Allowance → List Allowance
put_allowance none approval allowances = push allowances (allowance_of approval)
put_allowance (some _) approval allowances =
    update_first (allowance_is approval.allowance_id) (λ _. allowance_of approval) allowances

-- `APPROVE`
unfoldable pub approve : Portfolio → ReceiptBase → Approval → List AccountingCost → Result Portfolio
approve state receipt approval costs = do
  let allowance = find (allowance_is approval.allowance_id) state.allowances
  charged ← charge_approval state receipt allowance approval costs
  throw_if (changes_identity allowance approval) accounting_invariant
  ok (record charged { allowances = put_allowance allowance approval charged.allowances })

-- `SWAP`
unfoldable pub exchange : Portfolio → ReceiptBase → Swap → List AccountingCost → Result Portfolio
exchange state receipt swap costs = do
  source ← family_for_view state swap.source_cash_view_id
  destination ← family_for_view state swap.destination_cash_view_id
  throw_if (source.balance_family_id == destination.balance_family_id) accounting_invariant
  throw_if (source.network_id != destination.network_id) accounting_invariant
  let debit = swap.source_debit_usdc_minor
  let credit = swap.destination_credit_usdc_minor
  throw_if (ltb debit credit) accounting_invariant
  debited ← debit_cash state source.balance_family_id debit
  credited ← credit_cash debited destination.balance_family_id credit
  apply_costs credited receipt costs (debit - credit)

-- `PAYABLE_SETTLED`
unfoldable pub settle_payable : Portfolio → Ident → Ident → Result Portfolio
settle_payable state payable_id cash_view_id = do
  view ← family_for_view state cash_view_id
  payable ← or_throw (find (payable_is payable_id) state.payables) payable_not_found
  throw_if (payable.network_id != view.network_id) accounting_invariant
  debited ← debit_cash state view.balance_family_id payable.amount_usdc_minor
  ok (record debited { payables = filter (λ item. item.payable_id != payable_id) debited.payables })
