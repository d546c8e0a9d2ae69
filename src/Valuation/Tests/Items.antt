-- ===== src/Valuation/Tests/Items.antt =====
-- The portfolios of a checkpoint: an agent with a position, and two references in cash.
-- Code: packages/valuation/src/index.ts.
use alpha_proof.Base.{ℕ, ◌+◌, ◌≡◌, refl, true, none, some, [], ◌∷◌, ok, pos, ◌+ℤ◌, ◌-ℤ◌}
use alpha_proof.Accounting.State.{Ident, Portfolio}
use alpha_proof.Accounting.Amounts.{uint, require_uint, mul_div}
use alpha_proof.Accounting.Books.{
  family_for_view, cash_for_family, debit_cash, credit_cash, position_book, unique, pay_cost,
  fund_cost, check_cost, apply_cost, apply_cost_list, apply_costs,
}
use alpha_proof.Accounting.Check.Schema.{
  parse_portfolio, portfolio_in_range, kind_in_range, parse_receipt,
}
use alpha_proof.Accounting.Check.{
  check_unique, contiguous_from, check_versions, collect_families, check_cash, check_reservation,
  check_receivable, check_position, check_payable, check_cost_operation, check_allowance,
  check_references, check_solvency, check_conservation, check_closure, assert_portfolio,
}
use alpha_proof.Accounting.Effects.Local.{reserve}
use alpha_proof.Accounting.Effects.Positions.{rebook, credit_shares, invest, accrue_index}
use alpha_proof.Accounting.Apply.{
  sort_state, close_portfolio, effect, check_receipt, record_receipt, apply_new, prior_receipt,
  apply_parsed, apply_receipt,
}
use alpha_proof.Accounting.Value.{
  PortfolioValuation, DataQuality, ReasonCode, quality_of, sum_inputs, value_positions, values_of,
  reasons_of, check_inputs, valuation_of, value_portfolio,
}
use alpha_proof.Accounting.Tests.Start.{hasher, start}
use alpha_proof.Accounting.Tests.Values.{invested_state, observation}
use alpha_proof.Valuation.State.{
  ReferenceKind, ReferenceStatus, Role, PortfolioCheckpointInput, CheckpointPortfolio,
  CheckpointHasher,
}
use alpha_proof.Valuation.{
  accrual_receipt, apply_accruals, check_accruals, parse_checkpoint_portfolio, checkpoint_portfolio,
}
use alpha_proof.Valuation.Mark.{IsCheckpoint, checkpoint_portfolio-IsCheckpoint}

abbrev kind_number : ReferenceKind → ℕ
kind_number ReferenceKind.cash = 4
kind_number ReferenceKind.conservative_yield = 5

abbrev pub checkpoint_hasher : CheckpointHasher
checkpoint_hasher = record {
  accounting = hasher;
  distribution_hash = λ d. d.initial_value_usdc_minor + 1;
  accrual_operation = λ checkpoint portfolio position. 1000 + position;
  reference_name = λ experiment scenario kind. kind_number kind;
  checkpoint_hash = λ body. body.checkpoint_id + 700;
}

abbrev pub agent_input : PortfolioCheckpointInput
agent_input = record {
  role = Role.agent;
  reference_status = none;
  comparison_available = true;
  portfolio = invested_state;
  accruals =
      record {
        position_id = 80;
        next_index_numerator = 3;
        next_index_denominator = 5;
        source_hash = 97;
        observed_at = 7;
      }
      ∷ [];
  valuations = observation 60;
}

-- The agent's portfolio after the accrual, which gains 10.
abbrev accrued_state : Portfolio
accrued_state = record invested_state {
  version = 2;
  positions =
      record {
        position_id = 80;
        network_id = 10;
        instrument_id = 81;
        asset_id = 20;
        shares_minor = 100;
        index_numerator = 3;
        index_denominator = 5;
        book_value_usdc_minor = 60;
        rounding_remainder_numerator = 0;
        last_source_hash = 97;
        last_observed_at = 7;
      }
      ∷ [];
  modeled_pnl_usdc_minor = pos 10;
  applied_receipts =
      record { operation_id = 43; receipt_hash = 5043; version_applied = 1 }
      ∷ record { operation_id = 1080; receipt_hash = 8080; version_applied = 2 }
      ∷ [];
  last_applied_at = some 7;
}

abbrev agent_valuation : PortfolioValuation
agent_valuation = record {
  portfolio_hash = 3;
  portfolio_version = 2;
  mark_value_usdc_minor = some 1010;
  liquidation_value_usdc_minor = some 989;
  available_usdc_minor = 950;
  reserved_usdc_minor = 0;
  in_transit_usdc_minor = 0;
  blocked_value_usdc_minor = some 20;
  fees_payable_usdc_minor = 0;
  data_quality = DataQuality.fresh;
  source_hashes = 98 ∷ [];
  reason_codes = ReasonCode.blocked_liquidity ∷ [];
}

abbrev pub agent_item : CheckpointPortfolio
agent_item = record {
  portfolio_id = 3;
  role = Role.agent;
  reference_status = none;
  comparison_available = true;
  portfolio = accrued_state;
  valuation = agent_valuation;
  accrued_receipt_hashes = 8080 ∷ [];
}

abbrev pub reference_input : Role → Ident → PortfolioCheckpointInput
reference_input role name = record {
  role = role;
  reference_status = some ReferenceStatus.active;
  comparison_available = true;
  portfolio = record start { portfolio_id = name };
  accruals = [];
  valuations = [];
}

abbrev pub reference_item : Role → Ident → CheckpointPortfolio
reference_item role name = record {
  portfolio_id = name;
  role = role;
  reference_status = some ReferenceStatus.active;
  comparison_available = true;
  portfolio = record start { portfolio_id = name };
  valuation = record {
    portfolio_hash = 1;
    portfolio_version = 0;
    mark_value_usdc_minor = some 1000;
    liquidation_value_usdc_minor = some 1000;
    available_usdc_minor = 1000;
    reserved_usdc_minor = 0;
    in_transit_usdc_minor = 0;
    blocked_value_usdc_minor = some 0;
    fees_payable_usdc_minor = 0;
    data_quality = DataQuality.fresh;
    source_hashes = [];
    reason_codes = [];
  };
  accrued_receipt_hashes = [];
}

pub checkpoint-agent : checkpoint_portfolio checkpoint_hasher 500 agent_input ≡ ok agent_item
unfolding check_unique contiguous_from check_versions collect_families check_cash check_reservation
    check_receivable check_position check_payable check_cost_operation check_allowance
    check_references check_solvency check_conservation check_closure assert_portfolio
    family_for_view cash_for_family debit_cash credit_cash position_book unique pay_cost fund_cost
    check_cost apply_cost apply_cost_list apply_costs uint require_uint mul_div ◌+ℤ◌ ◌-ℤ◌
    parse_portfolio portfolio_in_range kind_in_range parse_receipt sort_state close_portfolio effect
    check_receipt record_receipt apply_new prior_receipt apply_parsed apply_receipt reserve rebook
    credit_shares invest accrue_index quality_of sum_inputs value_positions values_of reasons_of
    check_inputs valuation_of value_portfolio accrual_receipt apply_accruals check_accruals
    parse_checkpoint_portfolio checkpoint_portfolio
checkpoint-agent = refl

pub checkpoint-cash :
    checkpoint_portfolio checkpoint_hasher 500 (reference_input Role.cash_reference 4)
    ≡ ok (reference_item Role.cash_reference 4)
unfolding check_unique contiguous_from check_versions collect_families check_cash check_reservation
    check_receivable check_position check_payable check_cost_operation check_allowance
    check_references check_solvency check_conservation check_closure assert_portfolio
    family_for_view cash_for_family debit_cash credit_cash position_book unique pay_cost fund_cost
    check_cost apply_cost apply_cost_list apply_costs uint require_uint mul_div ◌+ℤ◌ ◌-ℤ◌
    parse_portfolio portfolio_in_range kind_in_range parse_receipt sort_state close_portfolio effect
    check_receipt record_receipt apply_new prior_receipt apply_parsed apply_receipt reserve rebook
    credit_shares invest accrue_index quality_of sum_inputs value_positions values_of reasons_of
    check_inputs valuation_of value_portfolio accrual_receipt apply_accruals check_accruals
    parse_checkpoint_portfolio checkpoint_portfolio
checkpoint-cash = refl

pub checkpoint-yield :
    checkpoint_portfolio checkpoint_hasher 500 (reference_input Role.conservative_yield_reference 5)
    ≡ ok (reference_item Role.conservative_yield_reference 5)
unfolding check_unique contiguous_from check_versions collect_families check_cash check_reservation
    check_receivable check_position check_payable check_cost_operation check_allowance
    check_references check_solvency check_conservation check_closure assert_portfolio
    family_for_view cash_for_family debit_cash credit_cash position_book unique pay_cost fund_cost
    check_cost apply_cost apply_cost_list apply_costs uint require_uint mul_div ◌+ℤ◌ ◌-ℤ◌
    parse_portfolio portfolio_in_range kind_in_range parse_receipt sort_state close_portfolio effect
    check_receipt record_receipt apply_new prior_receipt apply_parsed apply_receipt reserve rebook
    credit_shares invest accrue_index quality_of sum_inputs value_positions values_of reasons_of
    check_inputs valuation_of value_portfolio accrual_receipt apply_accruals check_accruals
    parse_checkpoint_portfolio checkpoint_portfolio
checkpoint-yield = refl

checkpoint_portfolio-IsCheckpoint_example :
    IsCheckpoint checkpoint_hasher 500 agent_input agent_item
checkpoint_portfolio-IsCheckpoint_example =
    checkpoint_portfolio-IsCheckpoint checkpoint_hasher 500 agent_input checkpoint-agent
