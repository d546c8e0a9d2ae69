-- ===== src/Accounting/Check.antt =====
-- The invariants that every portfolio is checked for, in the order of the source.
-- Code: packages/accounting/src/index.ts (`assertPortfolio`).
pub mod Schema
pub mod Sound
use alpha_proof.Base.{
  ℕ, suc, ◌+◌, ◌-◌, Bool, true, false, not, ◌&&◌, ◌||◌, Option, none, some, List, [], ◌∷◌, ltb,
  ◌==◌, ◌!=◌, is_some, when_some, bool_eq, opt_eq, length, find, any, push, update_first,
  accounting_invariant, Result, ok, ◌>>=◌, ◌>>◌, throw_if, or_throw, for_each, ℤ, pos, ◌+ℤ◌, ◌-ℤ◌,
  ltb_ℤ, eqb_ℤ, if◌then◌else◌,
}
use alpha_proof.Accounting.State.{
  Ident, Portfolio, BalanceView, CashBalance, Reservation, AccountingPosition, AccountingReceivable,
  FeePayable, Allowance, RecognizedCost, AppliedReceipt, CostFunding,
}
use alpha_proof.Accounting.Books.{gross_assets, payable_total, cost_total, position_book, unique}
use alpha_proof.Accounting.Check.Schema.{parse_portfolio}

unfoldable pub check_unique : Portfolio → Result (Unit {0})
check_unique state = do
  unique state.balance_views (λ item. item.view_id)
  unique state.cash (λ item. item.balance_family_id)
  unique state.reservations (λ item. item.reservation_id)
  unique state.positions (λ item. item.position_id)
  unique state.receivables (λ item. item.transfer_id)
  unique state.receivables (λ item. item.message_identity)
  unique state.payables (λ item. item.payable_id)
  unique state.allowances (λ item. item.allowance_id)
  unique state.recognized_costs (λ item. item.cost.cost_id)
  unique state.applied_receipts (λ item. item.operation_id)

-- The loop over `appliedReceipts.entries()`: entry `index` has the version `index + 1`.
unfoldable pub contiguous_from : ℕ → List AppliedReceipt → Bool
contiguous_from index [] = true
contiguous_from index (applied ∷ rest) =
    applied.version_applied == index + 1 && contiguous_from (index + 1) rest

unfoldable pub check_versions : Portfolio → Result (Unit {0})
check_versions state = do
  throw_if (state.version != length state.applied_receipts) accounting_invariant
  throw_if (not (bool_eq (state.version == 0) (not (is_some state.last_applied_at))))
      accounting_invariant
  throw_if (not (contiguous_from 0 state.applied_receipts)) accounting_invariant

abbrev of_family : Ident → BalanceView → Bool
of_family family view = view.balance_family_id == family

abbrev aliases : Option BalanceView → BalanceView → Bool
aliases none view = false
aliases (some family) view =
    family.network_id != view.network_id
    || family.asset_id != view.asset_id
    || family.canonical_decimals != view.canonical_decimals

-- `families.set(view.balanceFamilyId, view)`, on the values of the map
abbrev set_family : BalanceView → List BalanceView → List BalanceView
set_family view families =
    if any (of_family view.balance_family_id) families
    then update_first (of_family view.balance_family_id) (λ _. view) families
    else push families view

-- The loop that fills `families`.
unfoldable pub collect_families : List BalanceView → List BalanceView → Result (List BalanceView)
collect_families families [] = ok families
collect_families families (view ∷ views) = do
  throw_if (aliases (find (of_family view.balance_family_id) families) view) accounting_invariant
  collect_families (set_family view families) views

-- `family && family.networkId === … && family.assetId === …`
abbrev family_matches : List BalanceView → Ident → Ident → Ident → Bool
family_matches families family network asset =
    when_some (find (of_family family) families)
      (λ view. view.network_id == network && view.asset_id == asset)

abbrev has_asset : Portfolio → Ident → Ident → Bool
has_asset state network asset =
    any (λ view. view.network_id == network && view.asset_id == asset) state.balance_views

abbrev has_operation : Portfolio → Ident → Bool
has_operation state operation =
    any (λ receipt. receipt.operation_id == operation) state.applied_receipts

unfoldable pub check_cash : List BalanceView → CashBalance → Result (Unit {0})
check_cash families cash =
    throw_if (not (family_matches families cash.balance_family_id cash.network_id cash.asset_id))
      accounting_invariant

unfoldable pub check_reservation : Portfolio → List BalanceView → Reservation → Result (Unit {0})
check_reservation state families reservation = do
  throw_if
      (not (
        family_matches families reservation.balance_family_id reservation.network_id
          reservation.asset_id))
      accounting_invariant
  throw_if (not (has_operation state reservation.operation_id)) accounting_invariant

unfoldable pub check_receivable :
    Portfolio → List BalanceView → AccountingReceivable → Result (Unit {0})
check_receivable state families receivable = do
  throw_if
      (not (
        when_some (find (of_family receivable.destination_balance_family_id) families)
          (λ view. view.network_id == receivable.destination_network_id)))
      accounting_invariant
  throw_if (receivable.source_network_id == receivable.destination_network_id) accounting_invariant
  throw_if (ltb receivable.updated_at receivable.created_at) accounting_invariant
  throw_if (ltb state.max_destination_attempts receivable.destination_attempts) accounting_invariant
  throw_if (when_some state.last_applied_at (λ last. ltb last receivable.updated_at))
      accounting_invariant

unfoldable pub check_position : Portfolio → AccountingPosition → Result (Unit {0})
check_position state position = do
  throw_if (not (has_asset state position.network_id position.asset_id)) accounting_invariant
  throw_if (when_some state.last_applied_at (λ last. ltb last position.last_observed_at))
      accounting_invariant
  expected ← position_book position.shares_minor position.index_numerator position.index_denominator
  throw_if
      (position.book_value_usdc_minor != expected.value_minor
        || position.rounding_remainder_numerator != expected.amount_source_minor)
      accounting_invariant

abbrev is_payable : CostFunding → Bool
is_payable CostFunding.payable = true
is_payable _ = false

unfoldable pub check_payable : Portfolio → FeePayable → Result (Unit {0})
check_payable state payable =
    throw_if
      (not (
        when_some (find (λ item. item.cost.cost_id == payable.cost_id) state.recognized_costs)
          (λ cost.
            is_payable cost.cost.funding
            && cost.cost.amount_usdc_minor == payable.amount_usdc_minor)))
      accounting_invariant

unfoldable pub check_cost_operation : Portfolio → RecognizedCost → Result (Unit {0})
check_cost_operation state cost =
    throw_if (not (has_operation state cost.operation_id)) accounting_invariant

unfoldable pub check_allowance : Portfolio → Allowance → Result (Unit {0})
check_allowance state allowance =
    throw_if (not (has_asset state allowance.network_id allowance.asset_id)) accounting_invariant

unfoldable pub check_references : Portfolio → Result (Unit {0})
check_references state = do
  families ← collect_families [] state.balance_views
  for_each (check_cash families) state.cash
  throw_if (length families != length state.cash) accounting_invariant
  for_each (check_reservation state families) state.reservations
  for_each (check_receivable state families) state.receivables
  for_each (check_position state) state.positions
  for_each (check_payable state) state.payables
  for_each (check_cost_operation state) state.recognized_costs
  for_each (check_allowance state) state.allowances

-- `initial + modeled PnL - costs`
abbrev pub expected_net : Portfolio → ℤ
expected_net state =
    pos state.initial_value_usdc_minor
    +ℤ state.modeled_pnl_usdc_minor
    -ℤ pos (cost_total state.recognized_costs)

unfoldable pub check_solvency : Portfolio → Result (Unit {0})
check_solvency state =
    throw_if (ltb (gross_assets state) (payable_total state.payables)) accounting_invariant

-- Run after `check_solvency`, so the net value is not truncated.
unfoldable pub check_conservation : Portfolio → Result (Unit {0})
check_conservation state =
    let net = pos (gross_assets state - payable_total state.payables) in
    throw_if (ltb_ℤ (expected_net state) (pos 0) || not (eqb_ℤ net (expected_net state)))
      accounting_invariant

unfoldable pub check_closure : Portfolio → Result (Unit {0})
check_closure state = do
  throw_if (not (bool_eq (is_some state.closed_at) (is_some state.deadline_state_hash)))
      accounting_invariant
  throw_if
      (when_some state.closed_at
        (λ closed. when_some state.last_applied_at (λ last. ltb last closed)))
      accounting_invariant

unfoldable pub assert_portfolio : Portfolio → Result Portfolio
assert_portfolio input = do
  state ← parse_portfolio input
  check_unique state
  check_versions state
  check_references state
  check_solvency state
  check_conservation state
  check_closure state
  ok state
