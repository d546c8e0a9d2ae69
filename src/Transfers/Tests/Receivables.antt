-- ===== src/Transfers/Tests/Receivables.antt =====
-- A transfer beside the receivable of the accounting.
-- Code: packages/transfers/src/index.ts.
use alpha_proof.Base.{ℕ, none, [], ◌∷◌, pos}
use alpha_proof.Accounting.State.{
  Portfolio, Provenance, AccountingReceivable, TransferAccountingState,
}
use alpha_proof.Transfers.Tests.Events.{delayed}

abbrev receivable : TransferAccountingState → ℕ → AccountingReceivable
receivable state time = record {
  transfer_id = 60;
  message_identity = 70;
  source_network_id = 10;
  destination_network_id = 11;
  destination_balance_family_id = 31;
  amount_usdc_minor = 90;
  state = state;
  destination_attempts = 0;
  created_at = 6;
  updated_at = time;
}

abbrev portfolio : AccountingReceivable → Portfolio
portfolio item = record {
  experiment_id = 1;
  scenario_id = 2;
  portfolio_id = 3;
  result_provenance = Provenance.cross_chain_testnet;
  initial_value_usdc_minor = 90;
  max_destination_attempts = 2;
  version = 0;
  balance_views = [];
  cash = [];
  reservations = [];
  positions = [];
  receivables = item ∷ [];
  payables = [];
  allowances = [];
  recognized_costs = [];
  modeled_pnl_usdc_minor = pos 0;
  applied_receipts = [];
  last_applied_at = none;
  closed_at = none;
  deadline_state_hash = none;
}

abbrev late : AccountingReceivable
late = receivable TransferAccountingState.delayed 6
