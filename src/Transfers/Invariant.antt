-- ===== src/Transfers/Invariant.antt =====
-- What holds of every transfer that events lead to, and what a replay has counted.
-- Code: packages/transfers/src/index.ts (`createTransfer`, `applyTransferEvent`, `replayTransfer`).
use alpha_proof.Base.{◌≤◌, ◌≡◌, ◌⊎◌, true, Option, none, is_some, ok, arith}
use alpha_proof.Accounting.State.{Ident, Hash}
use alpha_proof.Transfers.State.{
  Transfer, TransferEvent, EventKind, LifecycleState, NewTransfer, create_transfer,
}
use alpha_proof.Transfers.Lifecycle.{advance, apply_transfer_event}
use alpha_proof.Transfers.Table.{apply_transfer_event-Applied}

-- A message identity is there exactly from the burn on; an invalidated transfer may have one.
abbrev pub MessageFits : LifecycleState → Option Ident → Type 0
MessageFits LifecycleState.reserved message = message ≡ none
MessageFits LifecycleState.source_failed message = message ≡ none
MessageFits LifecycleState.invalidated message = Unit {0}
MessageFits _ message = is_some message ≡ true

pub record IsSound (t : Transfer) : Type 0 where
  pub attempts : t.destination_attempts ≤ t.max_destination_attempts
  pub message : MessageFits t.state t.message_identity
  pub closure : is_some t.closed_at ≡ is_some t.deadline_state_hash

-- A transfer that is created is sound.
pub create_transfer-IsSound :
    (n : NewTransfer) {t : Transfer} → create_transfer n ≡ ok t → IsSound t
unfolding create_transfer
create_transfer-IsSound n h = ground arith

advance-IsSound :
    (hash : Transfer → Hash) (k : EventKind) (c : Transfer) (e : TransferEvent) {n : Transfer}
    → IsSound c
    → advance hash k c e ≡ ok n
    → IsSound n
unfolding advance
advance-IsSound hash EventKind.reserved c e v h = ground arith
advance-IsSound hash k c e v h = ground arith

-- Every accepted event keeps a transfer sound: attempts within their limit, a message identity
-- exactly where the state has one, and a deadline hash exactly where it is closed.
pub apply_transfer_event-IsSound :
    (hash : Transfer → Hash) (c : Transfer) (e : TransferEvent) {t : Transfer}
    → IsSound c
    → apply_transfer_event hash c e ≡ ok t
    → IsSound t
apply_transfer_event-IsSound hash c e v h =
    let a = apply_transfer_event-Applied hash c e h in
    let n = advance-IsSound hash e.kind c e v a.advanced in
    rw a.result (record { attempts = n.attempts; message = n.message; closure = n.closure })

-- The fields that no event changes, and those that change once.
pub record Follows (c t : Transfer) : Type 0 where
  pub transfer_id : t.transfer_id ≡ c.transfer_id
  pub amount : t.amount_usdc_minor ≡ c.amount_usdc_minor
  pub net_receivable : t.net_receivable_usdc_minor ≡ c.net_receivable_usdc_minor
  pub limit : t.max_destination_attempts ≡ c.max_destination_attempts
  pub attempts : c.destination_attempts ≤ t.destination_attempts
  pub message : (c.message_identity ≡ none) ⊎ (t.message_identity ≡ c.message_identity)
  pub closed :
      (c.closed_at ≡ none)
      ⊎ ((t.closed_at ≡ c.closed_at) × (t.deadline_state_hash ≡ c.deadline_state_hash))

advance-Follows :
    (hash : Transfer → Hash) (k : EventKind) (c : Transfer) (e : TransferEvent) {n : Transfer}
    → IsSound c
    → advance hash k c e ≡ ok n
    → Follows c n
unfolding advance
advance-Follows hash EventKind.reserved c e v h = ground arith
advance-Follows hash k c e v h = ground arith

-- An accepted event keeps identity, amounts and limit, takes no attempt back, and changes neither
-- a message identity nor a closing time that is there.
pub apply_transfer_event-Follows :
    (hash : Transfer → Hash) (c : Transfer) (e : TransferEvent) {t : Transfer}
    → IsSound c
    → apply_transfer_event hash c e ≡ ok t
    → Follows c t
apply_transfer_event-Follows hash c e v h =
    let a = apply_transfer_event-Applied hash c e h in
    let n = advance-Follows hash e.kind c e v a.advanced in
    rw a.result (record {
      transfer_id = n.transfer_id;
      amount = n.amount;
      net_receivable = n.net_receivable;
      limit = n.limit;
      attempts = n.attempts;
      message = n.message;
      closed = n.closed;
    })
