-- ===== src/Accounting/State.antt =====
-- The shadow portfolio and what it is made of. An amount is the number that its canonical
-- decimal text stands for. An identifier, a hash and a timestamp are numbers that stand for their
-- texts: the texts of one schema are finitely many and totally ordered, and the code only
-- compares them.
-- Code: packages/schemas/src/accounting.ts, packages/domain/src/index.ts.
use alpha_proof.Base.{ℕ, List, Option, Bool, ◌==◌, ℤ}

abbrev pub Ident : Type 0
Ident = ℕ

abbrev pub Hash : Type 0
Hash = ℕ

abbrev pub Timestamp : Type 0
Timestamp = ℕ

pub data Provenance : Type 0 where
  forward_shadow historical_replay synthetic_test : Provenance
  live_separate cross_chain_testnet mixed_diagnostic : Provenance

abbrev pub provenance_number : Provenance → ℕ
provenance_number forward_shadow = 0
provenance_number historical_replay = 1
provenance_number synthetic_test = 2
provenance_number live_separate = 3
provenance_number cross_chain_testnet = 4
provenance_number mixed_diagnostic = 5

-- `a === b`
abbrev pub provenance_eq : Provenance → Provenance → Bool
provenance_eq a b = provenance_number a == provenance_number b

pub data TransferAccountingState : Type 0 where
  in_transit ready_to_receive delayed destination_retry : TransferAccountingState

pub data CostFunding : Type 0 where
  available_cash payable withheld : CostFunding

pub data CostCategory : Type 0 where
  approval_gas execution_gas source_gas destination_gas retry_gas : CostCategory
  protocol_fee swap_fee_impact transfer_fee relayer : CostCategory

pub record AccountingCost : Type 0 where
  pub cost_id : Ident
  pub category : CostCategory
  pub funding : CostFunding
  pub amount_usdc_minor : ℕ
  pub network_id : Ident
  pub cash_balance_family_id : Option Ident
  pub source_hash : Hash

pub record BalanceView : Type 0 where
  pub view_id : Ident
  pub network_id : Ident
  pub asset_id : Ident
  pub balance_family_id : Ident
  pub decimals : ℕ
  pub canonical_decimals : ℕ

pub record CashBalance : Type 0 where
  pub balance_family_id : Ident
  pub network_id : Ident
  pub asset_id : Ident
  pub amount_usdc_minor : ℕ

pub record Reservation : Type 0 where
  pub reservation_id : Ident
  pub operation_id : Ident
  pub balance_family_id : Ident
  pub network_id : Ident
  pub asset_id : Ident
  pub amount_usdc_minor : ℕ

pub record AccountingPosition : Type 0 where
  pub position_id : Ident
  pub network_id : Ident
  pub instrument_id : Ident
  pub asset_id : Ident
  pub shares_minor : ℕ
  pub index_numerator : ℕ
  pub index_denominator : ℕ
  pub book_value_usdc_minor : ℕ
  pub rounding_remainder_numerator : ℕ
  pub last_source_hash : Hash
  pub last_observed_at : Timestamp

pub record AccountingReceivable : Type 0 where
  pub transfer_id : Ident
  pub message_identity : Ident
  pub source_network_id : Ident
  pub destination_network_id : Ident
  pub destination_balance_family_id : Ident
  pub amount_usdc_minor : ℕ
  pub state : TransferAccountingState
  pub destination_attempts : ℕ
  pub created_at : Timestamp
  pub updated_at : Timestamp

pub record FeePayable : Type 0 where
  pub payable_id : Ident
  pub cost_id : Ident
  pub network_id : Ident
  pub amount_usdc_minor : ℕ

pub record Allowance : Type 0 where
  pub allowance_id : Ident
  pub network_id : Ident
  pub asset_id : Ident
  pub spender_id : Ident
  pub amount_minor : ℕ

-- `AccountingCost.extend({ operationId })`
pub record RecognizedCost : Type 0 where
  pub cost : AccountingCost
  pub open cost use *
  pub operation_id : Ident

pub record AppliedReceipt : Type 0 where
  pub operation_id : Ident
  pub receipt_hash : Hash
  pub version_applied : ℕ

-- The literal fields of the schema (versions, unit of account and its decimals) are left out.
pub record Portfolio : Type 0 where
  pub experiment_id : Ident
  pub scenario_id : Ident
  pub portfolio_id : Ident
  pub result_provenance : Provenance
  pub initial_value_usdc_minor : ℕ
  pub max_destination_attempts : ℕ
  pub version : ℕ
  pub balance_views : List BalanceView
  pub cash : List CashBalance
  pub reservations : List Reservation
  pub positions : List AccountingPosition
  pub receivables : List AccountingReceivable
  pub payables : List FeePayable
  pub allowances : List Allowance
  pub recognized_costs : List RecognizedCost
  pub modeled_pnl_usdc_minor : ℤ
  pub applied_receipts : List AppliedReceipt
  pub last_applied_at : Option Timestamp
  pub closed_at : Option Timestamp
  pub deadline_state_hash : Option Hash
