-- ===== src/Accounting/Create.antt =====
-- A new portfolio from the cash of its balance families.
-- Code: packages/accounting/src/index.ts (`createPortfolio`).
pub mod Funded
use alpha_proof.Base.{
  ℕ, Bool, not, Option, none, some, List, [], ◌∷◌, ◌!=◌, find, any, includes, push, update_first,
  if◌then◌else◌, accounting_invariant, Result, ok, ◌>>=◌, ◌>>◌, throw_if, or_throw, pos,
}
use alpha_proof.Accounting.State.{Ident, Portfolio, Provenance, BalanceView, CashBalance}
use alpha_proof.Accounting.Amounts.{uint, require_uint}
use alpha_proof.Accounting.Books.{cash_total, view_is, family_is}
use alpha_proof.Accounting.Check.{assert_portfolio}
use alpha_proof.Accounting.Apply.{sort_state}

pub record InitialCash : Type 0 where
  pub view_id : Ident
  pub amount_usdc_minor : ℕ

pub record CreatePortfolioInput : Type 0 where
  pub experiment_id : Ident
  pub scenario_id : Ident
  pub portfolio_id : Ident
  pub result_provenance : Provenance
  pub initial_value_usdc_minor : ℕ
  pub max_destination_attempts : ℕ
  pub balance_views : List BalanceView
  pub initial_cash : List InitialCash

abbrev pub empty_cash : BalanceView → CashBalance
empty_cash view = record {
  balance_family_id = view.balance_family_id;
  network_id = view.network_id;
  asset_id = view.asset_id;
  amount_usdc_minor = 0;
}

abbrev pub open_family : List CashBalance → BalanceView → List CashBalance
open_family cash view =
    if any (family_is view.balance_family_id) cash then cash else push cash (empty_cash view)

-- The first loop: an empty balance for each family, on the values of the map.
unfoldable pub open_families : List CashBalance → List BalanceView → List CashBalance
open_families cash [] = cash
open_families cash (view ∷ views) = open_families (open_family cash view) views

abbrev pub set_amount : ℕ → CashBalance → CashBalance
set_amount amount balance = record balance { amount_usdc_minor = amount }

-- The second loop, with the families that are funded already. `cash.get(family)!` is there, since
-- the first loop has seen every view.
unfoldable pub fund :
    List BalanceView → List Ident → List CashBalance → List InitialCash → Result (List CashBalance)
fund views funded cash [] = ok cash
fund views funded cash (item ∷ items) = do
  view ← or_throw (find (view_is item.view_id) views) accounting_invariant
  throw_if (includes view.balance_family_id funded) accounting_invariant
  balance ← or_throw (find (family_is view.balance_family_id) cash) accounting_invariant
  value ← uint item.amount_usdc_minor
  amount ← require_uint value
  fund views (view.balance_family_id ∷ funded)
      (update_first (family_is view.balance_family_id) (set_amount amount) cash) items

abbrev pub new_state : CreatePortfolioInput → List CashBalance → Portfolio
new_state input cash = record {
  experiment_id = input.experiment_id;
  scenario_id = input.scenario_id;
  portfolio_id = input.portfolio_id;
  result_provenance = input.result_provenance;
  initial_value_usdc_minor = input.initial_value_usdc_minor;
  max_destination_attempts = input.max_destination_attempts;
  version = 0;
  balance_views = input.balance_views;
  cash = cash;
  reservations = [];
  positions = [];
  receivables = [];
  payables = [];
  allowances = [];
  recognized_costs = [];
  modeled_pnl_usdc_minor = pos 0;
  applied_receipts = [];
  last_applied_at = none;
  closed_at = none;
  deadline_state_hash = none;
}

unfoldable pub create_portfolio : CreatePortfolioInput → Result Portfolio
create_portfolio input = do
  cash ← fund input.balance_views [] (open_families [] input.balance_views) input.initial_cash
  let state = sort_state (new_state input cash)
  initial ← uint input.initial_value_usdc_minor
  throw_if (cash_total state.cash != initial) accounting_invariant
  assert_portfolio state
