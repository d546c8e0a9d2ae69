-- ===== src/Transfers/Agreement.antt =====
-- The life cycle of a transfer against the receivable that the accounting keeps for it, where they
-- disagree.
-- Code: packages/transfers/src/index.ts, packages/accounting/src/index.ts,
-- packages/storage/src/m5.ts (`appendEvent`, which applies both).
use alpha_proof.Base.{ℕ, ◌≤◌, ◌≡◌, refl, some, [], find, ok}
use alpha_proof.Accounting.State.{Portfolio, AccountingReceivable, TransferAccountingState}
use alpha_proof.Accounting.Receipt.{ReceiptBase}
use alpha_proof.Accounting.Books.{apply_costs, apply_cost_list, unique}
use alpha_proof.Accounting.Effects.Transfers.{receivable_is, open_receivable}
use alpha_proof.Transfers.State.{Transfer, TransferEvent, LifecycleState}
use alpha_proof.Transfers.Receipts.{receipt_base}

-- Which states of the receivable go with a state of the transfer.
abbrev pub StateMirrors : LifecycleState → TransferAccountingState → Type 0
StateMirrors LifecycleState.attestation_pending TransferAccountingState.in_transit = Unit {0}
StateMirrors LifecycleState.attestation_pending TransferAccountingState.delayed = Unit {0}
StateMirrors LifecycleState.ready_to_receive TransferAccountingState.ready_to_receive = Unit {0}
StateMirrors LifecycleState.destination_retry TransferAccountingState.destination_retry = Unit {0}
StateMirrors _ _ = ⊥

-- The receivable is the transfer's, in the state that goes with it.
pub record Mirrors (t : Transfer) (r : AccountingReceivable) : Type 0 where
  pub state : StateMirrors t.state r.state
  pub identity : r.transfer_id ≡ t.transfer_id
  pub attempts : r.destination_attempts ≡ t.destination_attempts
  pub time : r.updated_at ≤ t.updated_at

-- The portfolio holds the receivable and has the limit of the transfer.
pub record Holds (s : Portfolio) (t : Transfer) (r : AccountingReceivable) : Type 0 where
  pub found : find (receivable_is t.transfer_id) s.receivables ≡ some r
  pub limit : s.max_destination_attempts ≡ t.max_destination_attempts
  pub mirrors : Mirrors t r

apply_costs-nil : (s : Portfolio) (b : ReceiptBase) → apply_costs s b [] 0 ≡ ok s
unfolding apply_costs apply_cost_list unique
apply_costs-nil s b = refl

-- What an accepted delay leaves to compare.
record Delayed (s : Portfolio) (c : Transfer) (e : TransferEvent) (v : ℕ) (r : AccountingReceivable)
    (t : Transfer) : Type 0 where
  held : open_receivable s (receipt_base c e v []) c.transfer_id ≡ ok r
  pending : t.state ≡ LifecycleState.attestation_pending
  identity : r.transfer_id ≡ t.transfer_id
  attempts : r.destination_attempts ≡ t.destination_attempts
  time : e.occurred_at ≤ t.updated_at
