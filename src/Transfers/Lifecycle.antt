-- ===== src/Transfers/Lifecycle.antt =====
-- How an event changes a transfer. `contentHash` of a transfer is a parameter.
-- Code: packages/transfers/src/index.ts (`applyTransferEvent`, `replayTransfer`).
use alpha_proof.Base.{
  ℕ, ◌+◌, Bool, not, ◌&&◌, ◌||◌, some, List, [], ◌∷◌, ltb, leb, ◌==◌, ◌!=◌, is_some, when_some,
  opt_eq, push, if◌then◌else◌, Result, ok, ◌>>=◌, ◌>>◌, throw_if, accounting_invariant,
  invalid_transition, data_unavailable,
}
use alpha_proof.Accounting.State.{Hash}
use alpha_proof.Transfers.State.{
  Transfer, TransferEvent, EventKind, LifecycleState, parse_transfer, parse_event,
}
use alpha_proof.Transfers.Evidence.{verify_evidence}

abbrev state_number : LifecycleState → ℕ
state_number LifecycleState.reserved = 0
state_number LifecycleState.source_failed = 1
state_number LifecycleState.attestation_pending = 2
state_number LifecycleState.ready_to_receive = 3
state_number LifecycleState.destination_retry = 4
state_number LifecycleState.settled = 5
state_number LifecycleState.invalidated = 6

-- `a === b`
abbrev pub state_eq : LifecycleState → LifecycleState → Bool
state_eq a b = state_number a == state_number b

-- `current.messageIdentity && event.messageIdentity === current.messageIdentity`
abbrev pub same_message : Transfer → TransferEvent → Bool
same_message current event =
    when_some current.message_identity (λ message. opt_eq event.message_identity (some message))

abbrev attempts_used_up : Transfer → Bool
attempts_used_up current = leb current.max_destination_attempts current.destination_attempts

-- The branches of `applyTransferEvent` on the kind of the event: the state before the common
-- fields are written.
unfoldable pub advance : (Transfer → Hash) → EventKind → Transfer → TransferEvent → Result Transfer
advance hash EventKind.reserved current event = do
  throw_if (not (state_eq current.state LifecycleState.reserved) || event.sequence != 0)
      invalid_transition
  ok current
advance hash EventKind.source_failed current event = do
  throw_if (not (state_eq current.state LifecycleState.reserved)) invalid_transition
  throw_if (not (is_some event.reason_code)) data_unavailable
  ok (record current { state = LifecycleState.source_failed })
advance hash EventKind.burn_confirmed current event = do
  throw_if (not (state_eq current.state LifecycleState.reserved)) invalid_transition
  throw_if (not (is_some event.message_identity)) data_unavailable
  ok (record current {
    state = LifecycleState.attestation_pending;
    message_identity = event.message_identity;
  })
advance hash EventKind.attestation_observed current event = do
  throw_if
      (not (
        state_eq current.state LifecycleState.attestation_pending
        || state_eq current.state LifecycleState.destination_retry))
      invalid_transition
  throw_if (state_eq current.state LifecycleState.destination_retry && attempts_used_up current)
      invalid_transition
  throw_if (not (same_message current event)) invalid_transition
  ok (record current { state = LifecycleState.ready_to_receive })
advance hash EventKind.attestation_delayed current event = do
  throw_if (not (state_eq current.state LifecycleState.attestation_pending)) invalid_transition
  throw_if (not (same_message current event)) invalid_transition
  throw_if (not (is_some event.reason_code)) data_unavailable
  ok current
advance hash EventKind.destination_failed current event = do
  throw_if (not (state_eq current.state LifecycleState.ready_to_receive)) invalid_transition
  throw_if (not (same_message current event)) invalid_transition
  throw_if (not (is_some event.reason_code)) data_unavailable
  throw_if (attempts_used_up current) invalid_transition
  ok (record current {
    destination_attempts = current.destination_attempts + 1;
    state = LifecycleState.destination_retry;
  })
advance hash EventKind.destination_confirmed current event = do
  throw_if (not (state_eq current.state LifecycleState.ready_to_receive)) invalid_transition
  throw_if (not (same_message current event)) invalid_transition
  ok (record current { state = LifecycleState.settled })
advance hash EventKind.dependency_invalidated current event = do
  throw_if
      (state_eq current.state LifecycleState.source_failed
        || state_eq current.state LifecycleState.settled)
      invalid_transition
  throw_if (not (is_some event.reason_code)) data_unavailable
  ok (record current {
    state = LifecycleState.invalidated;
    invalidated_dependency_hash = some event.source_hash;
  })
advance hash EventKind.closure_recorded current event = do
  throw_if (not (is_some event.reason_code)) data_unavailable
  ok (
      if is_some current.closed_at then current else record current {
        closed_at = some event.occurred_at;
        deadline_state_hash = some (hash current);
      })

unfoldable pub check_event : Transfer → TransferEvent → Result (Unit {0})
check_event current event = do
  throw_if (event.transfer_id != current.transfer_id) accounting_invariant
  throw_if (event.sequence != current.next_sequence) invalid_transition
  throw_if (ltb event.occurred_at current.updated_at) invalid_transition
  verify_evidence current event

abbrev pub stamp : Transfer → TransferEvent → Transfer → Transfer
stamp current event next = record next {
  next_sequence = current.next_sequence + 1;
  updated_at = event.occurred_at;
}

unfoldable pub apply_transfer_event : (Transfer → Hash) → Transfer → TransferEvent → Result Transfer
apply_transfer_event hash current_input event_input = do
  current ← parse_transfer current_input
  event ← parse_event event_input
  check_event current event
  next ← advance hash event.kind current event
  parse_transfer (stamp current event next)

-- Writing a transfer as JSON and reading it back gives the same transfer.
unfoldable pub replay_events :
    (Transfer → Hash) → Transfer → List Hash → List TransferEvent → Result (Transfer × List Hash)
replay_events hash transfer hashes [] = ok (transfer, hashes)
replay_events hash transfer hashes (event ∷ events) = do
  applied ← apply_transfer_event hash transfer event
  next ← parse_transfer applied
  replay_events hash next (push hashes (hash next)) events

unfoldable pub replay_transfer :
    (Transfer → Hash) → Transfer → List TransferEvent → Result (Transfer × List Hash)
replay_transfer hash initial events = do
  transfer ← parse_transfer initial
  replay_events hash transfer (hash transfer ∷ []) events
