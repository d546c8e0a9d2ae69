-- ===== src/Accounting/Tests/Burn.antt =====
-- A burn after the reservation, and what it does to the value of the portfolio.
-- Code: packages/accounting/src/index.ts.
use alpha_proof.Base.{◌≤◌, ◌≡◌, refl, none, some, [], ◌∷◌, ok, ◌+ℤ◌, ◌-ℤ◌, arith}
use alpha_proof.Accounting.State.{
  Portfolio, TransferAccountingState, AccountingCost, CostFunding, CostCategory,
}
use alpha_proof.Accounting.Receipt.{Receipt, ReceiptKind}
use alpha_proof.Accounting.Amounts.{uint, require_uint, mul_div}
use alpha_proof.Accounting.Books.{
  gross_assets, payable_total, family_for_view, cash_for_family, debit_cash, credit_cash,
  position_book, unique, pay_cost, fund_cost, check_cost, apply_cost, apply_cost_list, apply_costs,
}
use alpha_proof.Accounting.Check.Schema.{
  parse_portfolio, portfolio_in_range, kind_in_range, parse_receipt,
}
use alpha_proof.Accounting.Check.{
  check_unique, contiguous_from, check_versions, collect_families, check_cash, check_reservation,
  check_receivable, check_position, check_payable, check_cost_operation, check_allowance,
  check_references, check_solvency, check_conservation, check_closure, assert_portfolio,
}
use alpha_proof.Accounting.Effects.Local.{reserve}
use alpha_proof.Accounting.Effects.Positions.{rebook, credit_shares, invest}
use alpha_proof.Accounting.Effects.Transfers.{confirm_burn}
use alpha_proof.Accounting.Apply.{
  sort_state, close_portfolio, effect, check_receipt, record_receipt, apply_new, prior_receipt,
  apply_parsed, apply_receipt,
}
use alpha_proof.Accounting.Conservation.{Conserves, UniqueIds}
use alpha_proof.Accounting.Conservation.Receipts.{effect-Conserves, effect-check_conservation}
use alpha_proof.Accounting.Tests.Start.{base, hasher, reserved_state}

abbrev burn_cost : AccountingCost
burn_cost = record {
  cost_id = 90;
  category = CostCategory.transfer_fee;
  funding = CostFunding.withheld;
  amount_usdc_minor = 10;
  network_id = 10;
  cash_balance_family_id = none;
  source_hash = 99;
}

abbrev pub burn_receipt : Receipt
burn_receipt = record {
  base = base 41 1 6;
  kind =
      ReceiptKind.transfer_burned
        (record {
          reservation_id = 50;
          transfer_id = 60;
          message_identity = 70;
          destination_network_id = 11;
          destination_cash_view_id = 2;
          net_receivable_usdc_minor = 90;
        })
        (burn_cost ∷ []);
}

-- After the effect of the burn, before its record.
abbrev burned : Portfolio
burned = record reserved_state {
  reservations = [];
  receivables =
      record {
        transfer_id = 60;
        message_identity = 70;
        source_network_id = 10;
        destination_network_id = 11;
        destination_balance_family_id = 31;
        amount_usdc_minor = 90;
        state = TransferAccountingState.in_transit;
        destination_attempts = 0;
        created_at = 6;
        updated_at = 6;
      }
      ∷ [];
  recognized_costs = record { cost = burn_cost; operation_id = 41 } ∷ [];
}

abbrev pub burned_state : Portfolio
burned_state = record burned {
  version = 2;
  last_applied_at = some 6;
  applied_receipts =
      record { operation_id = 40; receipt_hash = 5040; version_applied = 1 }
      ∷ record { operation_id = 41; receipt_hash = 6041; version_applied = 2 }
      ∷ [];
}

effect-burn : effect hasher reserved_state burn_receipt.base burn_receipt.kind ≡ ok burned
unfolding check_unique contiguous_from check_versions collect_families check_cash check_reservation
    check_receivable check_position check_payable check_cost_operation check_allowance
    check_references check_solvency check_conservation check_closure assert_portfolio
    family_for_view cash_for_family debit_cash credit_cash position_book unique pay_cost fund_cost
    check_cost apply_cost apply_cost_list apply_costs uint require_uint mul_div ◌+ℤ◌ ◌-ℤ◌
    parse_portfolio portfolio_in_range kind_in_range parse_receipt sort_state close_portfolio effect
    check_receipt record_receipt apply_new prior_receipt apply_parsed apply_receipt reserve rebook
    credit_shares invest confirm_burn
effect-burn = refl

pub apply-burn : apply_receipt hasher reserved_state burn_receipt ≡ ok burned_state
unfolding check_unique contiguous_from check_versions collect_families check_cash check_reservation
    check_receivable check_position check_payable check_cost_operation check_allowance
    check_references check_solvency check_conservation check_closure assert_portfolio
    family_for_view cash_for_family debit_cash credit_cash position_book unique pay_cost fund_cost
    check_cost apply_cost apply_cost_list apply_costs uint require_uint mul_div ◌+ℤ◌ ◌-ℤ◌
    parse_portfolio portfolio_in_range kind_in_range parse_receipt sort_state close_portfolio effect
    check_receipt record_receipt apply_new prior_receipt apply_parsed apply_receipt reserve rebook
    credit_shares invest confirm_burn
apply-burn = refl

reserved_state-accepted : assert_portfolio reserved_state ≡ ok reserved_state
unfolding check_unique contiguous_from check_versions collect_families check_cash check_reservation
    check_receivable check_position check_payable check_cost_operation check_allowance
    check_references check_solvency check_conservation check_closure assert_portfolio
    family_for_view cash_for_family debit_cash credit_cash position_book unique pay_cost fund_cost
    check_cost apply_cost apply_cost_list apply_costs uint require_uint mul_div ◌+ℤ◌ ◌-ℤ◌
    parse_portfolio portfolio_in_range kind_in_range parse_receipt
reserved_state-accepted = refl

reserved_state-UniqueIds : UniqueIds reserved_state
reserved_state-UniqueIds = record {
  reservations = refl;
  positions = refl;
  receivables = refl;
  payables = refl;
}

effect-Conserves_example : Conserves reserved_state burned
effect-Conserves_example =
    effect-Conserves hasher reserved_state burn_receipt.base burn_receipt.kind
      reserved_state-UniqueIds effect-burn

burned-solvent :
    let u = sort_state (record_receipt hasher reserved_state burn_receipt burned) in
    payable_total u.payables ≤ gross_assets u
unfolding sort_state record_receipt
burned-solvent = omega arith

effect-check_conservation_example :
    check_conservation (sort_state (record_receipt hasher reserved_state burn_receipt burned))
    ≡ ok tt
effect-check_conservation_example =
    effect-check_conservation hasher reserved_state burn_receipt reserved_state-accepted effect-burn
      burned-solvent
