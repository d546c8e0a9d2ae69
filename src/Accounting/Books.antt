-- ===== src/Accounting/Books.antt =====
-- The totals of a portfolio, its cash accounts, and the recognition of costs.
-- `uint` of a field that the schema bounds returns it, and is left out where the field is read.
-- Code: packages/accounting/src/index.ts (`total`, `familyForView` to `positionBook`, `applyCosts`).
pub mod Conservation
use alpha_proof.Base.{
  ℕ, ◌+◌, ◌-◌, Bool, true, false, not, ◌||◌, Option, none, some, List, [], ◌∷◌, ltb, ◌==◌, ◌!=◌,
  is_some, find, any, update_first, push, total_by, distinct, includes, map, ErrorCode,
  accounting_invariant, insufficient_available_balance, operation_conflict, Result, ok, err, ◌>>=◌,
  ◌>>◌, throw_if, or_throw,
}
use alpha_proof.Accounting.State.{
  Ident, Portfolio, BalanceView, CashBalance, Reservation, AccountingPosition, AccountingReceivable,
  FeePayable, RecognizedCost, AccountingCost, CostFunding,
}
use alpha_proof.Accounting.Receipt.{ReceiptBase}
use alpha_proof.Accounting.Amounts.{Rounding, ScaleResult, require_uint, mul_div}

abbrev pub cash_total : List CashBalance → ℕ
cash_total = total_by (λ item. item.amount_usdc_minor)

abbrev pub reserved_total : List Reservation → ℕ
reserved_total = total_by (λ item. item.amount_usdc_minor)

abbrev pub book_total : List AccountingPosition → ℕ
book_total = total_by (λ item. item.book_value_usdc_minor)

abbrev pub receivable_total : List AccountingReceivable → ℕ
receivable_total = total_by (λ item. item.amount_usdc_minor)

abbrev pub payable_total : List FeePayable → ℕ
payable_total = total_by (λ item. item.amount_usdc_minor)

abbrev pub cost_total : List RecognizedCost → ℕ
cost_total = total_by (λ item. item.cost.amount_usdc_minor)

-- `grossAssets`
abbrev pub gross_assets : Portfolio → ℕ
gross_assets state =
    cash_total state.cash
    + reserved_total state.reservations
    + book_total state.positions
    + receivable_total state.receivables

abbrev pub view_is : Ident → BalanceView → Bool
view_is view_id view = view.view_id == view_id

abbrev pub family_is : Ident → CashBalance → Bool
family_is family cash = cash.balance_family_id == family

unfoldable pub family_for_view : Portfolio → Ident → Result BalanceView
family_for_view state view_id =
    or_throw (find (view_is view_id) state.balance_views) accounting_invariant

unfoldable pub cash_for_family : Portfolio → Ident → Result CashBalance
cash_for_family state family = or_throw (find (family_is family) state.cash) accounting_invariant

-- `cash.amountUsdcMinor = …` through the entry that `cashForFamily` found
abbrev pub set_cash : Ident → ℕ → Portfolio → Portfolio
set_cash family amount state = record state {
  cash =
      update_first (family_is family) (λ item. record item { amount_usdc_minor = amount })
        state.cash;
}

unfoldable pub debit_cash : Portfolio → Ident → ℕ → Result Portfolio
debit_cash state family amount = do
  cash ← cash_for_family state family
  throw_if (ltb cash.amount_usdc_minor amount) insufficient_available_balance
  ok (set_cash family (cash.amount_usdc_minor - amount) state)

unfoldable pub credit_cash : Portfolio → Ident → ℕ → Result Portfolio
credit_cash state family amount = do
  cash ← cash_for_family state family
  balance ← require_uint (cash.amount_usdc_minor + amount)
  ok (set_cash family balance state)

unfoldable pub position_book : ℕ → ℕ → ℕ → Result ScaleResult
position_book shares numerator denominator = mul_div shares numerator denominator Rounding.floor

-- `unique`
unfoldable pub unique {ℓ} : {T : Type ℓ} → List T → (T → ℕ) → Result (Unit {0})
unique items key = throw_if (not (distinct (map key items))) accounting_invariant

abbrev pub recognize : AccountingCost → Ident → Portfolio → Portfolio
recognize cost operation state = record state {
  recognized_costs = push state.recognized_costs (record { cost = cost; operation_id = operation });
}

abbrev pub payable_of : AccountingCost → FeePayable
payable_of cost = record {
  payable_id = cost.cost_id;
  cost_id = cost.cost_id;
  network_id = cost.network_id;
  amount_usdc_minor = cost.amount_usdc_minor;
}

abbrev pub owe : AccountingCost → Portfolio → Portfolio
owe cost state = record state { payables = push state.payables (payable_of cost) }

-- A cost that is paid from available cash.
unfoldable pub pay_cost : AccountingCost → Portfolio → Result Portfolio
pay_cost cost state = do
  family ← or_throw cost.cash_balance_family_id accounting_invariant
  cash ← cash_for_family state family
  throw_if (cash.network_id != cost.network_id) accounting_invariant
  debit_cash state family cost.amount_usdc_minor

-- The three ways to fund a cost: the state, and what is withheld.
unfoldable pub fund_cost : CostFunding → AccountingCost → Portfolio → Result (Portfolio × ℕ)
fund_cost CostFunding.available_cash cost state = do paid ← pay_cost cost state; ok (paid, 0)
fund_cost CostFunding.payable cost state = do
  throw_if (is_some cost.cash_balance_family_id) accounting_invariant
  ok (owe cost state, 0)
fund_cost CostFunding.withheld cost state = do
  throw_if (is_some cost.cash_balance_family_id) accounting_invariant
  ok (state, cost.amount_usdc_minor)

-- A cost has an archived source, and is not recognized yet.
unfoldable pub check_cost : ReceiptBase → AccountingCost → Portfolio → Result (Unit {0})
check_cost receipt cost state = do
  throw_if
      (not (includes cost.source_hash (receipt.first_source_hash ∷ receipt.other_source_hashes)))
      accounting_invariant
  throw_if (any (λ item. item.cost.cost_id == cost.cost_id) state.recognized_costs)
      operation_conflict

-- One round of the loop of `applyCosts`.
unfoldable pub apply_cost : ReceiptBase → AccountingCost → Portfolio × ℕ → Result (Portfolio × ℕ)
apply_cost receipt cost (state, withheld) = do
  check_cost receipt cost state
  (funded, kept_back) ← fund_cost cost.funding cost state
  ok (recognize cost receipt.operation_id funded, withheld + kept_back)

unfoldable pub apply_cost_list :
    ReceiptBase → List AccountingCost → Portfolio × ℕ → Result (Portfolio × ℕ)
apply_cost_list receipt [] acc = ok acc
apply_cost_list receipt (cost ∷ costs) acc = do
  acc' ← apply_cost receipt cost acc
  apply_cost_list receipt costs acc'

unfoldable pub apply_costs : Portfolio → ReceiptBase → List AccountingCost → ℕ → Result Portfolio
apply_costs state receipt costs expected_withheld = do
  unique costs (λ cost. cost.cost_id)
  (state', withheld) ← apply_cost_list receipt costs (state, 0)
  throw_if (withheld != expected_withheld) accounting_invariant
  ok state'
