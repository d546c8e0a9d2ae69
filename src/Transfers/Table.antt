-- ===== src/Transfers/Table.antt =====
-- The transition table of the life cycle beside the code.
-- Code: packages/transfers/src/index.ts (`applyTransferEvent`).
use alpha_proof.Base.{
  ◌≡◌, sym, ap, ◌∙◌, Option, none, some, ok, err, invalid_transition, >>=-elim, >>-elim, arith,
}
use alpha_proof.Accounting.State.{Hash}
use alpha_proof.Transfers.State.{
  Transfer, TransferEvent, EventKind, LifecycleState, parse_transfer, parse_event,
}
use alpha_proof.Transfers.Lifecycle.{advance, check_event, stamp, apply_transfer_event}

-- The state that follows a state at an event, if the event is allowed there at all.
unfoldable pub transition : LifecycleState → EventKind → Option LifecycleState
transition LifecycleState.reserved EventKind.reserved = some LifecycleState.reserved
transition LifecycleState.reserved EventKind.source_failed = some LifecycleState.source_failed
transition LifecycleState.reserved EventKind.burn_confirmed =
    some LifecycleState.attestation_pending
transition LifecycleState.attestation_pending EventKind.attestation_observed =
    some LifecycleState.ready_to_receive
transition LifecycleState.attestation_pending EventKind.attestation_delayed =
    some LifecycleState.attestation_pending
transition LifecycleState.destination_retry EventKind.attestation_observed =
    some LifecycleState.ready_to_receive
transition LifecycleState.ready_to_receive EventKind.destination_failed =
    some LifecycleState.destination_retry
transition LifecycleState.ready_to_receive EventKind.destination_confirmed =
    some LifecycleState.settled
transition LifecycleState.source_failed EventKind.dependency_invalidated = none
transition LifecycleState.settled EventKind.dependency_invalidated = none
transition state EventKind.dependency_invalidated = some LifecycleState.invalidated
transition state EventKind.closure_recorded = some state
transition state kind = none

-- What an accepted event did.
pub record Applied (hash : Transfer → Hash) (c : Transfer) (e : TransferEvent) (t : Transfer)
    : Type 0 where
  pub next : Transfer
  pub parsed : parse_transfer c ≡ ok c
  pub checked : check_event c e ≡ ok tt
  pub advanced : advance hash e.kind c e ≡ ok next
  pub result : t ≡ stamp c e next
  pub in_range : parse_transfer t ≡ ok t

pub parse_transfer-same : (c : Transfer) {t : Transfer} → parse_transfer c ≡ ok t → t ≡ c
unfolding parse_transfer
parse_transfer-same c h = ground arith

pub parse_event-same : (e : TransferEvent) {t : TransferEvent} → parse_event e ≡ ok t → t ≡ e
unfolding parse_event
parse_event-same e h = ground arith

pub apply_transfer_event-Applied :
    (hash : Transfer → Hash) (c : Transfer) (e : TransferEvent) {t : Transfer}
    → apply_transfer_event hash c e ≡ ok t
    → Applied hash c e t
unfolding apply_transfer_event
apply_transfer_event-Applied hash c e {t} h = >>=-elim (parse_transfer c) _ h λ c' parsed h₁.
    >>=-elim (parse_event e) _ h₁ λ e' parsed_event h₂.
      let same = parse_transfer-same c parsed in
      let same_event = parse_event-same e parsed_event in
      >>-elim (check_event c' e') _ h₂ λ checked h₃.
        >>=-elim (advance hash e'.kind c' e') _ h₃ λ next advanced h₄.
          let result = parse_transfer-same (stamp c' e' next) h₄ in
          record {
            next = next;
            parsed = cc;
            checked = cc;
            advanced = cc;
            result = cc;
            in_range = cc;
          }

advance-transition :
    (hash : Transfer → Hash) (k : EventKind) (c : Transfer) (e : TransferEvent) {n : Transfer}
    → advance hash k c e ≡ ok n
    → transition c.state k ≡ some n.state
unfolding advance transition
advance-transition hash EventKind.reserved c e h = ground arith
advance-transition hash k c e h = ground arith

-- An accepted event takes the state of the transfer along the transition table.
pub apply_transfer_event-transition :
    (hash : Transfer → Hash) (c : Transfer) (e : TransferEvent) {t : Transfer}
    → apply_transfer_event hash c e ≡ ok t
    → transition c.state e.kind ≡ some t.state
apply_transfer_event-transition hash c e h =
    let a = apply_transfer_event-Applied hash c e h in
    advance-transition hash e.kind c e a.advanced ∙ ap (λ x. some x.state) (sym a.result)

advance-refused :
    (hash : Transfer → Hash) (k : EventKind) (c : Transfer) (e : TransferEvent)
    → transition c.state k ≡ none
    → advance hash k c e ≡ err invalid_transition
unfolding advance transition
advance-refused hash EventKind.reserved c e h = ground arith
advance-refused hash k c e h = ground arith

-- An event that the table does not allow is refused as an invalid transition, once the transfer
-- and the event are well formed and the event fits by binding, sequence, time and evidence.
pub apply_transfer_event-refused :
    (hash : Transfer → Hash) (c : Transfer) (e : TransferEvent)
    → parse_transfer c ≡ ok c
    → parse_event e ≡ ok e
    → check_event c e ≡ ok tt
    → transition c.state e.kind ≡ none
    → apply_transfer_event hash c e ≡ err invalid_transition
unfolding apply_transfer_event
apply_transfer_event-refused hash c e parsed parsed_event checked absent =
    rw (parsed, parsed_event, checked, advance-refused hash e.kind c e absent)
