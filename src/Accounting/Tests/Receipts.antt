-- ===== src/Accounting/Tests/Receipts.antt =====
-- Receipts that are repeated, in conflict, stale, or after the closure.
-- Code: packages/accounting/src/index.ts.
use alpha_proof.Base.{ℕ, ◌≡◌, ◌⊎◌, refl, true, none, some, [], ◌∷◌, ok, ◌+ℤ◌, ◌-ℤ◌}
use alpha_proof.Accounting.State.{Portfolio, TransferAccountingState}
use alpha_proof.Accounting.Receipt.{Receipt, ReceiptKind, is_transfer_receipt}
use alpha_proof.Accounting.Amounts.{uint, require_uint, mul_div}
use alpha_proof.Accounting.Books.{
  family_for_view, cash_for_family, debit_cash, credit_cash, position_book, unique, pay_cost,
  fund_cost, check_cost, apply_cost, apply_cost_list, apply_costs,
}
use alpha_proof.Accounting.Check.Schema.{
  parse_portfolio, portfolio_in_range, kind_in_range, parse_receipt,
}
use alpha_proof.Accounting.Check.{
  check_unique, contiguous_from, check_versions, collect_families, check_cash, check_reservation,
  check_receivable, check_position, check_payable, check_cost_operation, check_allowance,
  check_references, check_solvency, check_conservation, check_closure, assert_portfolio,
}
use alpha_proof.Accounting.Effects.Local.{reserve}
use alpha_proof.Accounting.Effects.Positions.{rebook, credit_shares, invest}
use alpha_proof.Accounting.Effects.Transfers.{confirm_burn, open_receivable, mark_ready}
use alpha_proof.Accounting.Apply.{
  sort_state, close_portfolio, effect, check_receipt, record_receipt, apply_new, prior_receipt,
  apply_parsed, apply_receipt,
}
use alpha_proof.Accounting.Apply.Once.{apply_receipt-apply_receipt}
use alpha_proof.Accounting.Apply.Sequence.{
  Advances, InLog, apply_receipt-Advances, apply_receipt-closed,
}
use alpha_proof.Accounting.Tests.Start.{
  apply-reserve, base, hasher, reserve_receipt, reserved_state, start,
}
use alpha_proof.Accounting.Tests.Burn.{burned_state}

apply_receipt-apply_receipt_example :
    apply_receipt hasher reserved_state reserve_receipt ≡ ok reserved_state
apply_receipt-apply_receipt_example =
    apply_receipt-apply_receipt hasher start reserve_receipt apply-reserve

abbrev idle_receipt : ℕ → ℕ → Receipt
idle_receipt operation time = record { base = base operation 0 time; kind = ReceiptKind.no_effect }

idle-parsed : parse_receipt (idle_receipt 40 6) ≡ ok (idle_receipt 40 6)
unfolding parse_receipt kind_in_range
idle-parsed = refl

start-new : (r : Receipt) → prior_receipt start r ≡ none
unfolding prior_receipt
start-new r = refl

apply_receipt-Advances_example : Advances start reserve_receipt reserved_state
apply_receipt-Advances_example =
    apply_receipt-Advances hasher start reserve_receipt apply-reserve (start-new reserve_receipt)

idle-parsed' : parse_receipt (idle_receipt 44 5) ≡ ok (idle_receipt 44 5)
unfolding parse_receipt kind_in_range
idle-parsed' = refl

abbrev close_receipt : Receipt
close_receipt = record { base = base 42 2 7; kind = ReceiptKind.close 7 }

abbrev closed_state : Portfolio
closed_state = record burned_state {
  version = 3;
  last_applied_at = some 7;
  closed_at = some 7;
  deadline_state_hash = some 3;
  applied_receipts =
      record { operation_id = 40; receipt_hash = 5040; version_applied = 1 }
      ∷ record { operation_id = 41; receipt_hash = 6041; version_applied = 2 }
      ∷ record { operation_id = 42; receipt_hash = 7042; version_applied = 3 }
      ∷ [];
}

apply-close : apply_receipt hasher burned_state close_receipt ≡ ok closed_state
unfolding check_unique contiguous_from check_versions collect_families check_cash check_reservation
    check_receivable check_position check_payable check_cost_operation check_allowance
    check_references check_solvency check_conservation check_closure assert_portfolio
    family_for_view cash_for_family debit_cash credit_cash position_book unique pay_cost fund_cost
    check_cost apply_cost apply_cost_list apply_costs uint require_uint mul_div ◌+ℤ◌ ◌-ℤ◌
    parse_portfolio portfolio_in_range kind_in_range parse_receipt sort_state close_portfolio effect
    check_receipt record_receipt apply_new prior_receipt apply_parsed apply_receipt reserve rebook
    credit_shares invest confirm_burn
apply-close = refl

abbrev ready_receipt : Receipt
ready_receipt = record { base = base 45 3 8; kind = ReceiptKind.transfer_ready 60 [] }

abbrev ready_state : Portfolio
ready_state = record closed_state {
  version = 4;
  last_applied_at = some 8;
  receivables =
      record {
        transfer_id = 60;
        message_identity = 70;
        source_network_id = 10;
        destination_network_id = 11;
        destination_balance_family_id = 31;
        amount_usdc_minor = 90;
        state = TransferAccountingState.ready_to_receive;
        destination_attempts = 0;
        created_at = 6;
        updated_at = 8;
      }
      ∷ [];
  applied_receipts =
      record { operation_id = 40; receipt_hash = 5040; version_applied = 1 }
      ∷ record { operation_id = 41; receipt_hash = 6041; version_applied = 2 }
      ∷ record { operation_id = 42; receipt_hash = 7042; version_applied = 3 }
      ∷ record { operation_id = 45; receipt_hash = 8045; version_applied = 4 }
      ∷ [];
}

-- A stage of a transfer after the deadline.
apply-ready : apply_receipt hasher closed_state ready_receipt ≡ ok ready_state
unfolding check_unique contiguous_from check_versions collect_families check_cash check_reservation
    check_receivable check_position check_payable check_cost_operation check_allowance
    check_references check_solvency check_conservation check_closure assert_portfolio
    family_for_view cash_for_family debit_cash credit_cash position_book unique pay_cost fund_cost
    check_cost apply_cost apply_cost_list apply_costs uint require_uint mul_div ◌+ℤ◌ ◌-ℤ◌
    parse_portfolio portfolio_in_range kind_in_range parse_receipt sort_state close_portfolio effect
    check_receipt record_receipt apply_new prior_receipt apply_parsed apply_receipt reserve rebook
    credit_shares invest confirm_burn open_receivable mark_ready
apply-ready = refl

apply_receipt-closed_example :
    (ready_state.closed_at ≡ some 7)
    × (ready_state.deadline_state_hash ≡ closed_state.deadline_state_hash)
    × ((is_transfer_receipt ready_receipt.kind ≡ true)
        ⊎ InLog hasher closed_state ready_receipt ready_state)
apply_receipt-closed_example =
    apply_receipt-closed hasher closed_state ready_receipt apply-ready refl
