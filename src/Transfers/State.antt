-- ===== src/Transfers/State.antt =====
-- Transfers, the events of their life cycle, and how a transfer is created.
-- Code: packages/schemas/src/transfer.ts, packages/transfers/src/index.ts (`createTransfer`).
use alpha_proof.Base.{
  ℕ, Bool, true, false, not, ◌&&◌, Option, none, Result, ok, ◌>>◌, throw_if, accounting_invariant,
  schema_rejected,
}
use alpha_proof.Accounting.State.{Ident, Hash, Timestamp, Provenance, provenance_eq}
use alpha_proof.Accounting.Check.Schema.{is_uint}

pub data LifecycleState : Type 0 where
  reserved source_failed attestation_pending ready_to_receive : LifecycleState
  destination_retry settled invalidated : LifecycleState

pub data EvidenceMode : Type 0 where
  synthetic live_testnet : EvidenceMode

pub data ReceiptStatus : Type 0 where
  success reverted : ReceiptStatus

pub data Finality : Type 0 where
  provisional finalized invalidated : Finality

-- The fields of the evidence that the code reads.
pub record ChainReceipt : Type 0 where
  pub status : ReceiptStatus
  pub finality : Finality

pub data EventKind : Type 0 where
  reserved source_failed burn_confirmed attestation_observed : EventKind
  attestation_delayed destination_failed destination_confirmed : EventKind
  dependency_invalidated closure_recorded : EventKind

pub record TransferEvent : Type 0 where
  pub event_id : Ident
  pub transfer_id : Ident
  pub sequence : ℕ
  pub kind : EventKind
  pub message_identity : Option Ident
  pub source_hash : Hash
  pub occurred_at : Timestamp
  pub chain_receipt : Option ChainReceipt
  pub attestation_hash : Option Hash
  pub reason_code : Option ℕ

pub record Transfer : Type 0 where
  pub transfer_id : Ident
  pub experiment_id : Ident
  pub scenario_id : Ident
  pub route_id : Ident
  pub reservation_id : Ident
  pub source_cash_view_id : Ident
  pub destination_cash_view_id : Ident
  pub amount_usdc_minor : ℕ
  pub net_receivable_usdc_minor : ℕ
  pub state : LifecycleState
  pub evidence_mode : EvidenceMode
  pub result_provenance : Provenance
  pub message_identity : Option Ident
  pub next_sequence : ℕ
  pub destination_attempts : ℕ
  pub max_destination_attempts : ℕ
  pub created_at : Timestamp
  pub updated_at : Timestamp
  pub closed_at : Option Timestamp
  pub deadline_state_hash : Option Hash
  pub invalidated_dependency_hash : Option Hash

-- `CctpTransfer.parse`, on the numbers.
unfoldable pub transfer_in_range : Transfer → Bool
transfer_in_range transfer =
    is_uint transfer.amount_usdc_minor
    && is_uint transfer.net_receivable_usdc_minor
    && is_uint transfer.next_sequence
    && is_uint transfer.destination_attempts
    && is_uint transfer.max_destination_attempts

unfoldable pub parse_transfer : Transfer → Result Transfer
parse_transfer transfer = do
  throw_if (not (transfer_in_range transfer)) schema_rejected
  ok transfer

-- `TransferLifecycleEvent.parse`, on the numbers.
unfoldable pub parse_event : TransferEvent → Result TransferEvent
parse_event event = do throw_if (not (is_uint event.sequence)) schema_rejected; ok event

abbrev pub is_live : EvidenceMode → Bool
is_live EvidenceMode.live_testnet = true
is_live EvidenceMode.synthetic = false

-- What the caller of `createTransfer` gives.
pub record NewTransfer : Type 0 where
  pub transfer_id : Ident
  pub experiment_id : Ident
  pub scenario_id : Ident
  pub route_id : Ident
  pub reservation_id : Ident
  pub source_cash_view_id : Ident
  pub destination_cash_view_id : Ident
  pub amount_usdc_minor : ℕ
  pub net_receivable_usdc_minor : ℕ
  pub evidence_mode : EvidenceMode
  pub result_provenance : Provenance
  pub max_destination_attempts : ℕ
  pub created_at : Timestamp

abbrev initial_transfer : NewTransfer → Transfer
initial_transfer input = record {
  transfer_id = input.transfer_id;
  experiment_id = input.experiment_id;
  scenario_id = input.scenario_id;
  route_id = input.route_id;
  reservation_id = input.reservation_id;
  source_cash_view_id = input.source_cash_view_id;
  destination_cash_view_id = input.destination_cash_view_id;
  amount_usdc_minor = input.amount_usdc_minor;
  net_receivable_usdc_minor = input.net_receivable_usdc_minor;
  state = LifecycleState.reserved;
  evidence_mode = input.evidence_mode;
  result_provenance = input.result_provenance;
  message_identity = none;
  next_sequence = 0;
  destination_attempts = 0;
  max_destination_attempts = input.max_destination_attempts;
  created_at = input.created_at;
  updated_at = input.created_at;
  closed_at = none;
  deadline_state_hash = none;
  invalidated_dependency_hash = none;
}

unfoldable pub create_transfer : NewTransfer → Result Transfer
unfolding parse_transfer transfer_in_range
create_transfer input = do
  throw_if
      (is_live input.evidence_mode
        && not (provenance_eq input.result_provenance Provenance.cross_chain_testnet))
      accounting_invariant
  throw_if
      (not (is_live input.evidence_mode)
        && not (provenance_eq input.result_provenance Provenance.synthetic_test))
      accounting_invariant
  parse_transfer (initial_transfer input)
