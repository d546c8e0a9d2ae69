-- ===== src/Accounting/Tests/Values.antt =====
-- A valuation of one position.
-- Code: packages/accounting/src/index.ts.
use alpha_proof.Base.{ℕ, ◌≡◌, refl, some, List, [], ◌∷◌, ok, ◌+ℤ◌, ◌-ℤ◌}
use alpha_proof.Accounting.State.{Portfolio}
use alpha_proof.Accounting.Receipt.{Receipt, ReceiptKind}
use alpha_proof.Accounting.Amounts.{uint, require_uint, mul_div}
use alpha_proof.Accounting.Books.{
  family_for_view, cash_for_family, debit_cash, credit_cash, position_book, unique, pay_cost,
  fund_cost, check_cost, apply_cost, apply_cost_list, apply_costs,
}
use alpha_proof.Accounting.Check.Schema.{
  parse_portfolio, portfolio_in_range, kind_in_range, parse_receipt,
}
use alpha_proof.Accounting.Check.{
  check_unique, contiguous_from, check_versions, collect_families, check_cash, check_reservation,
  check_receivable, check_position, check_payable, check_cost_operation, check_allowance,
  check_references, check_solvency, check_conservation, check_closure, assert_portfolio,
}
use alpha_proof.Accounting.Effects.Local.{reserve}
use alpha_proof.Accounting.Effects.Positions.{rebook, credit_shares, invest}
use alpha_proof.Accounting.Effects.Transfers.{confirm_burn}
use alpha_proof.Accounting.Apply.{
  sort_state, close_portfolio, effect, check_receipt, record_receipt, apply_new, prior_receipt,
  apply_parsed, apply_receipt,
}
use alpha_proof.Accounting.Value.{
  PositionValuation, PortfolioValuation, DataQuality, ReasonCode, quality_of, sum_inputs,
  value_positions, values_of, reasons_of, check_inputs, valuation_of, value_portfolio,
  global_book_value,
}
use alpha_proof.Accounting.Value.Laws.{Valued, value_portfolio-Valued}
use alpha_proof.Accounting.Tests.Start.{base, hasher, start}

abbrev deposit_receipt : Receipt
deposit_receipt = record {
  base = base 43 0 5;
  kind =
      ReceiptKind.deposit
        (record {
          cash_view_id = 1;
          position_id = 80;
          instrument_id = 81;
          shares_credit_minor = 100;
          index_numerator = 1;
          index_denominator = 2;
          input_usdc_minor = 50;
        })
        [];
}

abbrev pub invested_state : Portfolio
invested_state = record start {
  version = 1;
  cash =
      record { balance_family_id = 30; network_id = 10; asset_id = 20; amount_usdc_minor = 650 }
      ∷ record { balance_family_id = 31; network_id = 11; asset_id = 20; amount_usdc_minor = 300 }
      ∷ [];
  positions =
      record {
        position_id = 80;
        network_id = 10;
        instrument_id = 81;
        asset_id = 20;
        shares_minor = 100;
        index_numerator = 1;
        index_denominator = 2;
        book_value_usdc_minor = 50;
        rounding_remainder_numerator = 0;
        last_source_hash = 99;
        last_observed_at = 5;
      }
      ∷ [];
  applied_receipts = record { operation_id = 43; receipt_hash = 5043; version_applied = 1 } ∷ [];
  last_applied_at = some 5;
}

apply-deposit : apply_receipt hasher start deposit_receipt ≡ ok invested_state
unfolding check_unique contiguous_from check_versions collect_families check_cash check_reservation
    check_receivable check_position check_payable check_cost_operation check_allowance
    check_references check_solvency check_conservation check_closure assert_portfolio
    family_for_view cash_for_family debit_cash credit_cash position_book unique pay_cost fund_cost
    check_cost apply_cost apply_cost_list apply_costs uint require_uint mul_div ◌+ℤ◌ ◌-ℤ◌
    parse_portfolio portfolio_in_range kind_in_range parse_receipt sort_state close_portfolio effect
    check_receipt record_receipt apply_new prior_receipt apply_parsed apply_receipt reserve rebook
    credit_shares invest confirm_burn
apply-deposit = refl

abbrev pub observation : ℕ → List PositionValuation
observation mark =
    record {
      position_id = 80;
      mark_value_usdc_minor = some mark;
      recoverable_usdc_minor = some 40;
      exit_cost_usdc_minor = some 1;
      data_quality = DataQuality.fresh;
      source_hash = 98;
      observed_at = 6;
    }
    ∷ []

abbrev valuation : PortfolioValuation
valuation = record {
  portfolio_hash = 2;
  portfolio_version = 1;
  mark_value_usdc_minor = some 1000;
  liquidation_value_usdc_minor = some 989;
  available_usdc_minor = 950;
  reserved_usdc_minor = 0;
  in_transit_usdc_minor = 0;
  blocked_value_usdc_minor = some 10;
  fees_payable_usdc_minor = 0;
  data_quality = DataQuality.fresh;
  source_hashes = 98 ∷ [];
  reason_codes = ReasonCode.blocked_liquidity ∷ [];
}

value-observation : value_portfolio hasher invested_state (observation 50) ≡ ok valuation
unfolding check_unique contiguous_from check_versions collect_families check_cash check_reservation
    check_receivable check_position check_payable check_cost_operation check_allowance
    check_references check_solvency check_conservation check_closure assert_portfolio
    family_for_view cash_for_family debit_cash credit_cash position_book unique pay_cost fund_cost
    check_cost apply_cost apply_cost_list apply_costs uint require_uint mul_div ◌+ℤ◌ ◌-ℤ◌
    parse_portfolio portfolio_in_range kind_in_range parse_receipt quality_of sum_inputs
    value_positions values_of reasons_of check_inputs valuation_of value_portfolio
value-observation = refl

value_portfolio-Valued_example : Valued invested_state (observation 50) 1000 989 10
value_portfolio-Valued_example =
    value_portfolio-Valued hasher invested_state (observation 50) value-observation refl refl refl

book-invested : global_book_value invested_state ≡ ok 1000
unfolding check_unique contiguous_from check_versions collect_families check_cash check_reservation
    check_receivable check_position check_payable check_cost_operation check_allowance
    check_references check_solvency check_conservation check_closure assert_portfolio
    family_for_view cash_for_family debit_cash credit_cash position_book unique pay_cost fund_cost
    check_cost apply_cost apply_cost_list apply_costs uint require_uint mul_div ◌+ℤ◌ ◌-ℤ◌
    parse_portfolio portfolio_in_range kind_in_range parse_receipt global_book_value
book-invested = refl
