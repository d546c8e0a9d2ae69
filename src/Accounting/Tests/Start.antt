-- ===== src/Accounting/Tests/Start.antt =====
-- A portfolio that is created, and a first receipt.
-- Code: packages/accounting/src/index.ts.
use alpha_proof.Base.{ℕ, ◌+◌, ◌*◌, ◌≡◌, refl, none, some, [], ◌∷◌, ok, pos, ◌+ℤ◌, ◌-ℤ◌}
use alpha_proof.Accounting.State.{Portfolio, Provenance, BalanceView}
use alpha_proof.Accounting.Receipt.{Receipt, ReceiptBase, ReceiptKind}
use alpha_proof.Accounting.Amounts.{uint, require_uint, mul_div}
use alpha_proof.Accounting.Books.{
  family_for_view, cash_for_family, debit_cash, credit_cash, position_book, unique, pay_cost,
  fund_cost, check_cost, apply_cost, apply_cost_list, apply_costs,
}
use alpha_proof.Accounting.Check.Schema.{
  parse_portfolio, portfolio_in_range, kind_in_range, parse_receipt,
}
use alpha_proof.Accounting.Check.{
  check_unique, contiguous_from, check_versions, collect_families, check_cash, check_reservation,
  check_receivable, check_position, check_payable, check_cost_operation, check_allowance,
  check_references, check_solvency, check_conservation, check_closure, assert_portfolio,
}
use alpha_proof.Accounting.Effects.Local.{reserve}
use alpha_proof.Accounting.Effects.Positions.{rebook, credit_shares, invest}
use alpha_proof.Accounting.Effects.Transfers.{confirm_burn}
use alpha_proof.Accounting.Apply.{
  Hasher, sort_state, close_portfolio, effect, check_receipt, record_receipt, apply_new,
  prior_receipt, apply_parsed, apply_receipt,
}
use alpha_proof.Accounting.Create.{CreatePortfolioInput, open_families, fund, create_portfolio}
use alpha_proof.Accounting.Create.Funded.{IsCreated, create_portfolio-IsCreated}

abbrev pub hasher : Hasher
hasher = record {
  portfolio_hash = λ s. s.version + 1;
  receipt_hash = λ r. r.base.operation_id + 1000 * r.base.observed_at;
}

abbrev view : ℕ → ℕ → ℕ → BalanceView
view id network family = record {
  view_id = id;
  network_id = network;
  asset_id = 20;
  balance_family_id = family;
  decimals = 6;
  canonical_decimals = 6;
}

abbrev input : CreatePortfolioInput
input = record {
  experiment_id = 1;
  scenario_id = 2;
  portfolio_id = 3;
  result_provenance = Provenance.forward_shadow;
  initial_value_usdc_minor = 1000;
  max_destination_attempts = 2;
  balance_views = view 1 10 30 ∷ view 2 11 31 ∷ [];
  initial_cash =
      record { view_id = 1; amount_usdc_minor = 700 }
      ∷ record { view_id = 2; amount_usdc_minor = 300 }
      ∷ [];
}

abbrev pub start : Portfolio
start = record {
  experiment_id = 1;
  scenario_id = 2;
  portfolio_id = 3;
  result_provenance = Provenance.forward_shadow;
  initial_value_usdc_minor = 1000;
  max_destination_attempts = 2;
  version = 0;
  balance_views = view 1 10 30 ∷ view 2 11 31 ∷ [];
  cash =
      record { balance_family_id = 30; network_id = 10; asset_id = 20; amount_usdc_minor = 700 }
      ∷ record { balance_family_id = 31; network_id = 11; asset_id = 20; amount_usdc_minor = 300 }
      ∷ [];
  reservations = [];
  positions = [];
  receivables = [];
  payables = [];
  allowances = [];
  recognized_costs = [];
  modeled_pnl_usdc_minor = pos 0;
  applied_receipts = [];
  last_applied_at = none;
  closed_at = none;
  deadline_state_hash = none;
}

create-start : create_portfolio input ≡ ok start
unfolding create_portfolio open_families fund sort_state check_unique contiguous_from check_versions
    collect_families check_cash check_reservation check_receivable check_position check_payable
    check_cost_operation check_allowance check_references check_solvency check_conservation
    check_closure assert_portfolio family_for_view cash_for_family debit_cash credit_cash
    position_book unique pay_cost fund_cost check_cost apply_cost apply_cost_list apply_costs uint
    require_uint mul_div ◌+ℤ◌ ◌-ℤ◌ parse_portfolio portfolio_in_range kind_in_range parse_receipt
create-start = refl

pub start-accepted : assert_portfolio start ≡ ok start
unfolding check_unique contiguous_from check_versions collect_families check_cash check_reservation
    check_receivable check_position check_payable check_cost_operation check_allowance
    check_references check_solvency check_conservation check_closure assert_portfolio
    family_for_view cash_for_family debit_cash credit_cash position_book unique pay_cost fund_cost
    check_cost apply_cost apply_cost_list apply_costs uint require_uint mul_div ◌+ℤ◌ ◌-ℤ◌
    parse_portfolio portfolio_in_range kind_in_range parse_receipt
start-accepted = refl

abbrev pub base : ℕ → ℕ → ℕ → ReceiptBase
base operation version time = record {
  operation_id = operation;
  experiment_id = 1;
  scenario_id = 2;
  expected_portfolio_version = version;
  observed_at = time;
  result_provenance = Provenance.forward_shadow;
  first_source_hash = 99;
  other_source_hashes = [];
}

abbrev pub reserve_receipt : Receipt
reserve_receipt = record { base = base 40 0 5; kind = ReceiptKind.reserve 50 1 100 [] }

abbrev pub reserved_state : Portfolio
reserved_state = record start {
  version = 1;
  cash =
      record { balance_family_id = 30; network_id = 10; asset_id = 20; amount_usdc_minor = 600 }
      ∷ record { balance_family_id = 31; network_id = 11; asset_id = 20; amount_usdc_minor = 300 }
      ∷ [];
  reservations =
      record {
        reservation_id = 50;
        operation_id = 40;
        balance_family_id = 30;
        network_id = 10;
        asset_id = 20;
        amount_usdc_minor = 100;
      }
      ∷ [];
  applied_receipts = record { operation_id = 40; receipt_hash = 5040; version_applied = 1 } ∷ [];
  last_applied_at = some 5;
}

pub apply-reserve : apply_receipt hasher start reserve_receipt ≡ ok reserved_state
unfolding check_unique contiguous_from check_versions collect_families check_cash check_reservation
    check_receivable check_position check_payable check_cost_operation check_allowance
    check_references check_solvency check_conservation check_closure assert_portfolio
    family_for_view cash_for_family debit_cash credit_cash position_book unique pay_cost fund_cost
    check_cost apply_cost apply_cost_list apply_costs uint require_uint mul_div ◌+ℤ◌ ◌-ℤ◌
    parse_portfolio portfolio_in_range kind_in_range parse_receipt sort_state close_portfolio effect
    check_receipt record_receipt apply_new prior_receipt apply_parsed apply_receipt reserve rebook
    credit_shares invest confirm_burn
apply-reserve = refl

create_portfolio-IsCreated_example : IsCreated input start
create_portfolio-IsCreated_example = create_portfolio-IsCreated input create-start
