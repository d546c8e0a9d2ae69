-- ===== src/Accounting/Apply.antt =====
-- Applying receipts to a portfolio: replayed and stale receipts, the effect, the closing checks.
-- `contentHash` (of the domain package, over a hash function that the repository does not
-- implement) is a parameter.
-- Code: packages/accounting/src/index.ts (`sortState`, `applyReceipt`, `replay`).
pub mod Once
pub mod Sequence
use alpha_proof.Base.{
  ℕ, ◌+◌, not, ◌||◌, ◌&&◌, Option, none, some, ltb, ◌==◌, ◌!=◌, is_some, when_some, find, push,
  sort_by, accounting_invariant, operation_conflict, stale_portfolio, invalid_transition,
  closed_portfolio, Result, ok, ◌>>=◌, ◌>>◌, throw_if,
}
use alpha_proof.Accounting.State.{Portfolio, Hash, AppliedReceipt, provenance_eq}
use alpha_proof.Accounting.Receipt.{Receipt, ReceiptBase, ReceiptKind, is_transfer_receipt}
use alpha_proof.Accounting.Check.{assert_portfolio}
use alpha_proof.Accounting.Check.Schema.{parse_receipt}
use alpha_proof.Accounting.Effects.Local.{reserve, charge, approve, exchange, settle_payable}
use alpha_proof.Accounting.Effects.Positions.{invest, divest, accrue_index}
use alpha_proof.Accounting.Effects.Transfers.{
  fail_source, confirm_burn, mark_ready, mark_delayed, mark_retry, settle,
}

-- `contentHash` at the two types that the accounting hashes.
pub record Hasher : Type 0 where
  pub portfolio_hash : Portfolio → Hash
  pub receipt_hash : Receipt → Hash

unfoldable pub sort_state : Portfolio → Portfolio
sort_state state = record state {
  balance_views = sort_by (λ item. item.view_id) state.balance_views;
  cash = sort_by (λ item. item.balance_family_id) state.cash;
  reservations = sort_by (λ item. item.reservation_id) state.reservations;
  positions = sort_by (λ item. item.position_id) state.positions;
  receivables = sort_by (λ item. item.transfer_id) state.receivables;
  payables = sort_by (λ item. item.payable_id) state.payables;
  allowances = sort_by (λ item. item.allowance_id) state.allowances;
  recognized_costs = sort_by (λ item. item.cost.cost_id) state.recognized_costs;
}

-- `CLOSE`
unfoldable pub close_portfolio : Hasher → Portfolio → ReceiptBase → ℕ → Result Portfolio
close_portfolio hasher state receipt closed_at = do
  throw_if (closed_at != receipt.observed_at) accounting_invariant
  ok (record state {
    closed_at = some closed_at;
    deadline_state_hash = some (hasher.portfolio_hash state);
  })

-- The branches of `applyReceipt` on the kind of the receipt.
unfoldable pub effect : Hasher → Portfolio → ReceiptBase → ReceiptKind → Result Portfolio
effect hasher state receipt ReceiptKind.no_effect = ok state
effect hasher state receipt (ReceiptKind.reserve reservation view amount costs) =
    reserve state receipt reservation view amount costs
effect hasher state receipt (ReceiptKind.cost costs) = charge state receipt costs
effect hasher state receipt (ReceiptKind.approve approval costs) =
    approve state receipt approval costs
effect hasher state receipt (ReceiptKind.deposit deposit costs) = invest state receipt deposit costs
effect hasher state receipt (ReceiptKind.withdraw withdrawal costs) =
    divest state receipt withdrawal costs
effect hasher state receipt (ReceiptKind.swap swap costs) = exchange state receipt swap costs
effect hasher state receipt (ReceiptKind.payable_settled payable view) =
    settle_payable state payable view
effect hasher state receipt (ReceiptKind.transfer_source_failed reservation costs) =
    fail_source state receipt reservation costs
effect hasher state receipt (ReceiptKind.transfer_burned burn costs) =
    confirm_burn state receipt burn costs
effect hasher state receipt (ReceiptKind.transfer_ready transfer costs) =
    mark_ready state receipt transfer costs
effect hasher state receipt (ReceiptKind.transfer_delayed transfer costs) =
    mark_delayed state receipt transfer costs
effect hasher state receipt (ReceiptKind.transfer_destination_retry transfer costs) =
    mark_retry state receipt transfer costs
effect hasher state receipt (ReceiptKind.transfer_settled transfer credit costs) =
    settle state receipt transfer credit costs
effect hasher state receipt (ReceiptKind.accrue position numerator denominator costs) =
    accrue_index state receipt position numerator denominator costs
effect hasher state receipt (ReceiptKind.close closed_at) =
    close_portfolio hasher state receipt closed_at

-- The checks on a receipt that was not applied before.
unfoldable pub check_receipt : Portfolio → Receipt → Result (Unit {0})
check_receipt original receipt = do
  throw_if
      (receipt.base.experiment_id != original.experiment_id
        || receipt.base.scenario_id != original.scenario_id
        || not (provenance_eq receipt.base.result_provenance original.result_provenance))
      accounting_invariant
  throw_if (receipt.base.expected_portfolio_version != original.version) stale_portfolio
  throw_if (when_some original.last_applied_at (λ last. ltb receipt.base.observed_at last))
      invalid_transition
  throw_if (is_some original.closed_at && not (is_transfer_receipt receipt.kind)) closed_portfolio

-- Version, time and log entry of an applied receipt.
unfoldable pub record_receipt : Hasher → Portfolio → Receipt → Portfolio → Portfolio
record_receipt hasher original receipt state = record state {
  version = original.version + 1;
  last_applied_at = some receipt.base.observed_at;
  applied_receipts = push state.applied_receipts (record {
    operation_id = receipt.base.operation_id;
    receipt_hash = hasher.receipt_hash receipt;
    version_applied = original.version + 1;
  });
}

unfoldable pub apply_new : Hasher → Portfolio → Receipt → Result Portfolio
apply_new hasher original receipt = do
  check_receipt original receipt
  state ← effect hasher original receipt.base receipt.kind
  assert_portfolio (sort_state (record_receipt hasher original receipt state))

-- The entry of an operation that was applied before.
unfoldable pub prior_receipt : Portfolio → Receipt → Option AppliedReceipt
prior_receipt original receipt =
    find (λ item. item.operation_id == receipt.base.operation_id) original.applied_receipts

unfoldable pub apply_parsed :
    Hasher → Portfolio → Receipt → Option AppliedReceipt → Result Portfolio
apply_parsed hasher original receipt none = apply_new hasher original receipt
apply_parsed hasher original receipt (some prior) = do
  throw_if (prior.receipt_hash != hasher.receipt_hash receipt) operation_conflict
  ok original

unfoldable pub apply_receipt : Hasher → Portfolio → Receipt → Result Portfolio
apply_receipt hasher state_input receipt_input = do
  original ← assert_portfolio state_input
  receipt ← parse_receipt receipt_input
  apply_parsed hasher original receipt (prior_receipt original receipt)
