-- ===== src/Accounting/Effects/Positions.antt =====
-- The receipts that change a position: deposits, withdrawals and index accruals.
-- Code: packages/accounting/src/index.ts (`applyReceipt`, its branches of these kinds).
use alpha_proof.Base.{
  ℕ, ◌+◌, ◌-◌, Bool, ◌||◌, Option, none, some, List, leb, ltb, ◌==◌, ◌!=◌, if◌then◌else◌, find,
  filter, update_first, push, accounting_invariant, invalid_transition, Result, ok, ◌>>=◌, ◌>>◌,
  throw_if, or_throw, sub_ℕ, ◌+ℤ◌,
}
use alpha_proof.Accounting.State.{Ident, Portfolio, BalanceView, AccountingPosition, AccountingCost}
use alpha_proof.Accounting.Receipt.{ReceiptBase, Deposit, Withdrawal}
use alpha_proof.Accounting.Amounts.{require_uint}
use alpha_proof.Accounting.Books.{
  family_for_view, debit_cash, credit_cash, position_book, apply_costs,
}
use alpha_proof.Accounting.Effects.Local.{has_costs}

abbrev pub position_is : Ident → AccountingPosition → Bool
position_is position_id item = item.position_id == position_id

abbrev pub set_position : Ident → AccountingPosition → Portfolio → Portfolio
set_position position_id position state = record state {
  positions = update_first (position_is position_id) (λ _. position) state.positions;
}

-- Book value, remainder and provenance of a position from its shares and index.
unfoldable pub rebook : ReceiptBase → AccountingPosition → Result AccountingPosition
rebook receipt position = do
  book ← position_book position.shares_minor position.index_numerator position.index_denominator
  ok (record position {
    book_value_usdc_minor = book.value_minor;
    rounding_remainder_numerator = book.amount_source_minor;
    last_source_hash = receipt.first_source_hash;
    last_observed_at = receipt.observed_at;
  })

abbrev new_position : BalanceView → ReceiptBase → Deposit → AccountingPosition
new_position view receipt deposit = record {
  position_id = deposit.position_id;
  network_id = view.network_id;
  instrument_id = deposit.instrument_id;
  asset_id = view.asset_id;
  shares_minor = deposit.shares_credit_minor;
  index_numerator = deposit.index_numerator;
  index_denominator = deposit.index_denominator;
  book_value_usdc_minor = 0;
  rounding_remainder_numerator = 0;
  last_source_hash = receipt.first_source_hash;
  last_observed_at = receipt.observed_at;
}

abbrev differs_from : AccountingPosition → BalanceView → Deposit → Bool
differs_from position view deposit =
    position.network_id != view.network_id
    || position.instrument_id != deposit.instrument_id
    || position.asset_id != view.asset_id
    || position.index_numerator != deposit.index_numerator
    || position.index_denominator != deposit.index_denominator

-- The position with the credited shares, before its book value is derived.
unfoldable pub credit_shares :
    Option AccountingPosition → BalanceView → ReceiptBase → Deposit → Result AccountingPosition
credit_shares none view receipt deposit = ok (new_position view receipt deposit)
credit_shares (some position) view receipt deposit = do
  throw_if (differs_from position view deposit) accounting_invariant
  shares ← require_uint (position.shares_minor + deposit.shares_credit_minor)
  ok (record position { shares_minor = shares })

abbrev pub book_before : Option AccountingPosition → ℕ
book_before none = 0
book_before (some position) = position.book_value_usdc_minor

-- A new position is pushed; one that `find` returned is written in place.
abbrev pub put_position :
    Ident → Option AccountingPosition → AccountingPosition → Portfolio → Portfolio
put_position position_id none position state = record state {
  positions = push state.positions position;
}
put_position position_id (some _) position state = set_position position_id position state

-- `DEPOSIT`. The difference `input - (book - before)` is written as `(input + before) - book`.
unfoldable pub invest : Portfolio → ReceiptBase → Deposit → List AccountingCost → Result Portfolio
invest state receipt deposit costs = do
  view ← family_for_view state deposit.cash_view_id
  debited ← debit_cash state view.balance_family_id deposit.input_usdc_minor
  let existing = find (position_is deposit.position_id) debited.positions
  credited ← credit_shares existing view receipt deposit
  position ← rebook receipt credited
  let available = deposit.input_usdc_minor + book_before existing
  throw_if (ltb available position.book_value_usdc_minor) accounting_invariant
  apply_costs (put_position deposit.position_id existing position debited) receipt costs
      (available - position.book_value_usdc_minor)

-- The positions after the debit, and the book value that is left.
unfoldable pub debit_shares :
    Portfolio → ReceiptBase → Ident → AccountingPosition → ℕ → Result (Portfolio × ℕ)
debit_shares state receipt position_id position remaining =
    if remaining == 0
    then ok (
      record state { positions = filter (λ item. item.position_id != position_id) state.positions },
      0,
    )
    else (do
      rebooked ← rebook receipt (record position { shares_minor = remaining })
      ok (set_position position_id rebooked state, rebooked.book_value_usdc_minor))

-- `WITHDRAW`. `credit > before - after` is written as `before < after + credit`.
unfoldable pub divest :
    Portfolio → ReceiptBase → Withdrawal → List AccountingCost → Result Portfolio
divest state receipt withdrawal costs = do
  view ← family_for_view state withdrawal.cash_view_id
  position ← or_throw (find (position_is withdrawal.position_id) state.positions) invalid_transition
  throw_if (position.network_id != view.network_id || position.asset_id != view.asset_id)
      accounting_invariant
  throw_if (ltb position.shares_minor withdrawal.shares_debit_minor) invalid_transition
  (debited, after) ←
      debit_shares state receipt withdrawal.position_id position
        (position.shares_minor - withdrawal.shares_debit_minor)
  let before = position.book_value_usdc_minor
  let credit = withdrawal.cash_credit_usdc_minor
  throw_if (ltb before (after + credit)) accounting_invariant
  credited ← credit_cash debited view.balance_family_id credit
  apply_costs credited receipt costs (before - after - credit)

-- `ACCRUE`
unfoldable pub accrue_index :
    Portfolio → ReceiptBase → Ident → ℕ → ℕ → List AccountingCost → Result Portfolio
accrue_index state receipt position_id numerator denominator costs = do
  throw_if (has_costs costs) accounting_invariant
  position ← or_throw (find (position_is position_id) state.positions) invalid_transition
  throw_if (leb receipt.observed_at position.last_observed_at) invalid_transition
  accrued ←
      rebook receipt
        (record position { index_numerator = numerator; index_denominator = denominator })
  ok (record (set_position position_id accrued state) {
    modeled_pnl_usdc_minor =
        state.modeled_pnl_usdc_minor
        +ℤ sub_ℕ accrued.book_value_usdc_minor position.book_value_usdc_minor;
  })
