-- ===== src/Accounting/Receipt.antt =====
-- Accounting receipts: the fields that all kinds share, and the kinds with their own fields.
-- Code: packages/schemas/src/accounting.ts.
use alpha_proof.Base.{ℕ, List, Bool, true, false}
use alpha_proof.Accounting.State.{Ident, Hash, Timestamp, Provenance, AccountingCost}

-- `sourceHashes` has one entry at least: the first, and the others.
pub record ReceiptBase : Type 0 where
  pub operation_id : Ident
  pub experiment_id : Ident
  pub scenario_id : Ident
  pub expected_portfolio_version : ℕ
  pub observed_at : Timestamp
  pub result_provenance : Provenance
  pub first_source_hash : Hash
  pub other_source_hashes : List Hash

pub record Approval : Type 0 where
  pub allowance_id : Ident
  pub network_id : Ident
  pub asset_id : Ident
  pub spender_id : Ident
  pub amount_minor : ℕ

pub record Deposit : Type 0 where
  pub cash_view_id : Ident
  pub position_id : Ident
  pub instrument_id : Ident
  pub shares_credit_minor : ℕ
  pub index_numerator : ℕ
  pub index_denominator : ℕ
  pub input_usdc_minor : ℕ

pub record Withdrawal : Type 0 where
  pub cash_view_id : Ident
  pub position_id : Ident
  pub shares_debit_minor : ℕ
  pub cash_credit_usdc_minor : ℕ

pub record Swap : Type 0 where
  pub source_cash_view_id : Ident
  pub destination_cash_view_id : Ident
  pub source_debit_usdc_minor : ℕ
  pub destination_credit_usdc_minor : ℕ

pub record Burn : Type 0 where
  pub reservation_id : Ident
  pub transfer_id : Ident
  pub message_identity : Ident
  pub destination_network_id : Ident
  pub destination_cash_view_id : Ident
  pub net_receivable_usdc_minor : ℕ

-- The list of costs comes last where the kind has one. `NO_EFFECT` and `CLOSE` have none, and
-- their statuses and reasons are not read by the code.
pub data ReceiptKind : Type 0 where
  no_effect : ReceiptKind
  reserve : (reservation_id cash_view_id : Ident) (amount : ℕ) → List AccountingCost → ReceiptKind
  cost : List AccountingCost → ReceiptKind
  approve : Approval → List AccountingCost → ReceiptKind
  deposit : Deposit → List AccountingCost → ReceiptKind
  withdraw : Withdrawal → List AccountingCost → ReceiptKind
  swap : Swap → List AccountingCost → ReceiptKind
  payable_settled : (payable_id cash_view_id : Ident) → ReceiptKind
  transfer_source_failed : (reservation_id : Ident) → List AccountingCost → ReceiptKind
  transfer_burned : Burn → List AccountingCost → ReceiptKind
  transfer_ready : (transfer_id : Ident) → List AccountingCost → ReceiptKind
  transfer_delayed : (transfer_id : Ident) → List AccountingCost → ReceiptKind
  transfer_destination_retry : (transfer_id : Ident) → List AccountingCost → ReceiptKind
  transfer_settled : (transfer_id : Ident) (credit : ℕ) → List AccountingCost → ReceiptKind
  accrue :
      (position_id : Ident) (next_index_numerator next_index_denominator : ℕ)
      → List AccountingCost
      → ReceiptKind
  close : (closed_at : Timestamp) → ReceiptKind

pub record Receipt : Type 0 where
  pub base : ReceiptBase
  pub open base use *
  pub kind : ReceiptKind

-- `transferReceiptKinds.has(receipt.kind)`
abbrev pub is_transfer_receipt : ReceiptKind → Bool
is_transfer_receipt (ReceiptKind.transfer_ready _ _) = true
is_transfer_receipt (ReceiptKind.transfer_delayed _ _) = true
is_transfer_receipt (ReceiptKind.transfer_destination_retry _ _) = true
is_transfer_receipt (ReceiptKind.transfer_settled _ _ _) = true
is_transfer_receipt _ = false

abbrev pub is_close : ReceiptKind → Bool
is_close (ReceiptKind.close _) = true
is_close _ = false
