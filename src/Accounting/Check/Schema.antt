-- ===== src/Accounting/Check/Schema.antt =====
-- The number ranges of the portfolio's schema: unsigned values below 2^256, positive where the
-- schema says so, a signed profit below 2^255, scales up to 36. Texts are not modelled, so their
-- patterns are not checked here.
-- Code: packages/schemas/src/accounting.ts, packages/schemas/src/primitives.ts.
use alpha_proof.Base.{
  ℕ, ◌^◌, Bool, not, ◌&&◌, Result, ok, ◌>>◌, throw_if, schema_rejected, all, leb, ltb, ℤ, pos_part,
  neg_part,
}
use alpha_proof.Accounting.State.{
  Portfolio, BalanceView, AccountingPosition, AccountingReceivable, AccountingCost,
}
use alpha_proof.Accounting.Receipt.{Receipt, ReceiptKind}
use alpha_proof.Accounting.Amounts.{uint256_limit}

abbrev pub is_uint : ℕ → Bool
is_uint value = ltb value uint256_limit

abbrev pub is_positive_uint : ℕ → Bool
is_positive_uint value = ltb 0 value && is_uint value

abbrev pub is_int : ℤ → Bool
is_int value = ltb (pos_part value) (2 ^ 255) && leb (neg_part value) (2 ^ 255)

abbrev pub view_in_range : BalanceView → Bool
view_in_range view = leb view.decimals 36 && leb view.canonical_decimals 36

abbrev pub position_in_range : AccountingPosition → Bool
position_in_range position =
    is_positive_uint position.shares_minor
    && is_positive_uint position.index_numerator
    && is_positive_uint position.index_denominator
    && is_uint position.book_value_usdc_minor
    && is_uint position.rounding_remainder_numerator

abbrev pub receivable_in_range : AccountingReceivable → Bool
receivable_in_range receivable =
    is_positive_uint receivable.amount_usdc_minor && is_uint receivable.destination_attempts

abbrev pub cost_in_range : AccountingCost → Bool
cost_in_range cost = is_positive_uint cost.amount_usdc_minor

-- `ShadowPortfolio.parse`
unfoldable pub portfolio_in_range : Portfolio → Bool
portfolio_in_range state =
    is_positive_uint state.initial_value_usdc_minor
    && is_positive_uint state.max_destination_attempts
    && is_uint state.version
    && all view_in_range state.balance_views
    && all (λ item. is_uint item.amount_usdc_minor) state.cash
    && all (λ item. is_positive_uint item.amount_usdc_minor) state.reservations
    && all position_in_range state.positions
    && all receivable_in_range state.receivables
    && all (λ item. is_positive_uint item.amount_usdc_minor) state.payables
    && all (λ item. is_uint item.amount_minor) state.allowances
    && all (λ item. cost_in_range item.cost) state.recognized_costs
    && is_int state.modeled_pnl_usdc_minor
    && all (λ item. is_positive_uint item.version_applied) state.applied_receipts

unfoldable pub parse_portfolio : Portfolio → Result Portfolio
parse_portfolio state = do throw_if (not (portfolio_in_range state)) schema_rejected; ok state

unfoldable pub kind_in_range : ReceiptKind → Bool
kind_in_range ReceiptKind.no_effect = Bool.true
kind_in_range (ReceiptKind.reserve _ _ amount costs) =
    is_positive_uint amount && all cost_in_range costs
kind_in_range (ReceiptKind.cost costs) = all cost_in_range costs
kind_in_range (ReceiptKind.approve approval costs) =
    is_uint approval.amount_minor && all cost_in_range costs
kind_in_range (ReceiptKind.deposit deposit costs) =
    is_positive_uint deposit.shares_credit_minor
    && is_positive_uint deposit.index_numerator
    && is_positive_uint deposit.index_denominator
    && is_positive_uint deposit.input_usdc_minor
    && all cost_in_range costs
kind_in_range (ReceiptKind.withdraw withdrawal costs) =
    is_positive_uint withdrawal.shares_debit_minor
    && is_uint withdrawal.cash_credit_usdc_minor
    && all cost_in_range costs
kind_in_range (ReceiptKind.swap swap costs) =
    is_positive_uint swap.source_debit_usdc_minor
    && is_uint swap.destination_credit_usdc_minor
    && all cost_in_range costs
kind_in_range (ReceiptKind.payable_settled _ _) = Bool.true
kind_in_range (ReceiptKind.transfer_source_failed _ costs) = all cost_in_range costs
kind_in_range (ReceiptKind.transfer_burned burn costs) =
    is_positive_uint burn.net_receivable_usdc_minor && all cost_in_range costs
kind_in_range (ReceiptKind.transfer_ready _ costs) = all cost_in_range costs
kind_in_range (ReceiptKind.transfer_delayed _ costs) = all cost_in_range costs
kind_in_range (ReceiptKind.transfer_destination_retry _ costs) = all cost_in_range costs
kind_in_range (ReceiptKind.transfer_settled _ credit costs) =
    is_uint credit && all cost_in_range costs
kind_in_range (ReceiptKind.accrue _ numerator denominator costs) =
    is_positive_uint numerator && is_positive_uint denominator && all cost_in_range costs
kind_in_range (ReceiptKind.close _) = Bool.true

-- `AccountingReceipt.parse`
unfoldable pub parse_receipt : Receipt → Result Receipt
unfolding kind_in_range
parse_receipt receipt = do
  throw_if (not (is_uint receipt.base.expected_portfolio_version && kind_in_range receipt.kind))
      schema_rejected
  ok receipt
