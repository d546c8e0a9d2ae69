-- ===== src/Transfers/Tests/Events.antt =====
-- A transfer that is created, and events.
-- Code: packages/transfers/src/index.ts.
use alpha_proof.Base.{ℕ, ◌≡◌, refl, Option, none, some, ok}
use alpha_proof.Accounting.State.{Provenance}
use alpha_proof.Transfers.State.{
  Transfer, TransferEvent, EventKind, LifecycleState, EvidenceMode, ChainReceipt, ReceiptStatus,
  Finality, NewTransfer, create_transfer, parse_transfer, parse_event, transfer_in_range,
}
use alpha_proof.Transfers.Evidence.{verify_receipt, verify_evidence}
use alpha_proof.Transfers.Lifecycle.{advance, check_event, apply_transfer_event}

abbrev pub hash : Transfer → ℕ
hash t = t.next_sequence

abbrev pub new : NewTransfer
new = record {
  transfer_id = 60;
  experiment_id = 1;
  scenario_id = 2;
  route_id = 3;
  reservation_id = 50;
  source_cash_view_id = 1;
  destination_cash_view_id = 2;
  amount_usdc_minor = 100;
  net_receivable_usdc_minor = 90;
  evidence_mode = EvidenceMode.live_testnet;
  result_provenance = Provenance.cross_chain_testnet;
  max_destination_attempts = 2;
  created_at = 4;
}

abbrev pub created : Transfer
created = record {
  transfer_id = 60;
  experiment_id = 1;
  scenario_id = 2;
  route_id = 3;
  reservation_id = 50;
  source_cash_view_id = 1;
  destination_cash_view_id = 2;
  amount_usdc_minor = 100;
  net_receivable_usdc_minor = 90;
  state = LifecycleState.reserved;
  evidence_mode = EvidenceMode.live_testnet;
  result_provenance = Provenance.cross_chain_testnet;
  message_identity = none;
  next_sequence = 0;
  destination_attempts = 0;
  max_destination_attempts = 2;
  created_at = 4;
  updated_at = 4;
  closed_at = none;
  deadline_state_hash = none;
  invalidated_dependency_hash = none;
}

pub create-new : create_transfer new ≡ ok created
unfolding create_transfer
create-new = refl

abbrev pub event : ℕ → ℕ → EventKind → TransferEvent
event sequence time kind = record {
  event_id = sequence;
  transfer_id = 60;
  sequence = sequence;
  kind = kind;
  message_identity = some 70;
  source_hash = 99;
  occurred_at = time;
  chain_receipt = none;
  attestation_hash = none;
  reason_code = some 5;
}

abbrev final_receipt : ReceiptStatus → Option ChainReceipt
final_receipt status = some (record { status = status; finality = Finality.finalized })

abbrev pub burn_event : TransferEvent
burn_event = record (event 1 6 EventKind.burn_confirmed) {
  chain_receipt = final_receipt ReceiptStatus.success;
}

abbrev pub attested_event : ℕ → TransferEvent
attested_event sequence = record (event sequence 7 EventKind.attestation_observed) {
  attestation_hash = some 77;
}

abbrev pub delayed_event : ℕ → TransferEvent
delayed_event sequence = event sequence 7 EventKind.attestation_delayed

abbrev pub failed_event : TransferEvent
failed_event = record (event 3 8 EventKind.destination_failed) {
  chain_receipt = final_receipt ReceiptStatus.reverted;
}

abbrev pub confirmed_event : TransferEvent
confirmed_event = record (event 3 8 EventKind.destination_confirmed) {
  chain_receipt = final_receipt ReceiptStatus.success;
}

abbrev pub pending : Transfer
pending = record created {
  state = LifecycleState.attestation_pending;
  message_identity = some 70;
  next_sequence = 2;
  updated_at = 6;
}

abbrev pub ready : Transfer
ready = record pending {
  state = LifecycleState.ready_to_receive;
  next_sequence = 3;
  updated_at = 7;
}

abbrev pub delayed : Transfer
delayed = record pending { next_sequence = 3; updated_at = 7 }

abbrev pub retrying : Transfer
retrying = record ready {
  state = LifecycleState.destination_retry;
  destination_attempts = 1;
  next_sequence = 4;
  updated_at = 8;
}

abbrev pub settled : Transfer
settled = record ready { state = LifecycleState.settled; next_sequence = 4; updated_at = 8 }

pub apply-attested : apply_transfer_event hash pending (attested_event 2) ≡ ok ready
unfolding parse_transfer parse_event transfer_in_range check_event verify_receipt verify_evidence
    advance apply_transfer_event
apply-attested = refl

pub apply-delayed : apply_transfer_event hash pending (delayed_event 2) ≡ ok delayed
unfolding parse_transfer parse_event transfer_in_range check_event verify_receipt verify_evidence
    advance apply_transfer_event
apply-delayed = refl

pub apply-failed : apply_transfer_event hash ready failed_event ≡ ok retrying
unfolding parse_transfer parse_event transfer_in_range check_event verify_receipt verify_evidence
    advance apply_transfer_event
apply-failed = refl
