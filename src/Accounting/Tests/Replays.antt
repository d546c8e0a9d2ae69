-- ===== src/Accounting/Tests/Replays.antt =====
-- A replay of two receipts.
-- Code: packages/accounting/src/index.ts.
use alpha_proof.Base.{◌≡◌, refl, true, List, [], ◌∷◌, ok, ◌+ℤ◌, ◌-ℤ◌}
use alpha_proof.Accounting.Receipt.{Receipt}
use alpha_proof.Accounting.Amounts.{uint, require_uint, mul_div}
use alpha_proof.Accounting.Books.{
  family_for_view, cash_for_family, debit_cash, credit_cash, position_book, unique, pay_cost,
  fund_cost, check_cost, apply_cost, apply_cost_list, apply_costs,
}
use alpha_proof.Accounting.Check.Schema.{
  parse_portfolio, portfolio_in_range, kind_in_range, parse_receipt,
}
use alpha_proof.Accounting.Check.{
  check_unique, contiguous_from, check_versions, collect_families, check_cash, check_reservation,
  check_receivable, check_position, check_payable, check_cost_operation, check_allowance,
  check_references, check_solvency, check_conservation, check_closure, assert_portfolio,
}
use alpha_proof.Accounting.Effects.Local.{reserve}
use alpha_proof.Accounting.Effects.Positions.{rebook, credit_shares, invest}
use alpha_proof.Accounting.Effects.Transfers.{confirm_burn}
use alpha_proof.Accounting.Apply.{
  sort_state, close_portfolio, effect, check_receipt, record_receipt, apply_new, prior_receipt,
  apply_parsed, apply_receipt,
}
use alpha_proof.Accounting.Replay.{ReplayResult, after_serialization, replay_from, replay}
use alpha_proof.Accounting.Replay.Laws.{Traced, Ended, replay-Traced}
use alpha_proof.Accounting.Tests.Start.{hasher, reserve_receipt, start}
use alpha_proof.Accounting.Tests.Burn.{burn_receipt, burned_state}

abbrev receipts : List Receipt
receipts = reserve_receipt ∷ burn_receipt ∷ []

abbrev replayed : ReplayResult
replayed = record { state = burned_state; state_hashes = 1 ∷ 2 ∷ 3 ∷ [] }

replay-receipts : replay hasher start receipts true ≡ ok replayed
unfolding check_unique contiguous_from check_versions collect_families check_cash check_reservation
    check_receivable check_position check_payable check_cost_operation check_allowance
    check_references check_solvency check_conservation check_closure assert_portfolio
    family_for_view cash_for_family debit_cash credit_cash position_book unique pay_cost fund_cost
    check_cost apply_cost apply_cost_list apply_costs uint require_uint mul_div ◌+ℤ◌ ◌-ℤ◌
    parse_portfolio portfolio_in_range kind_in_range parse_receipt sort_state close_portfolio effect
    check_receipt record_receipt apply_new prior_receipt apply_parsed apply_receipt reserve rebook
    credit_shares invest confirm_burn after_serialization replay_from replay
replay-receipts = refl

replay-Traced_example :
    Traced hasher start (reserve_receipt ∷ []) burn_receipt true replayed × Ended hasher 2 replayed
replay-Traced_example =
    replay-Traced hasher start (reserve_receipt ∷ []) burn_receipt [] true replay-receipts
