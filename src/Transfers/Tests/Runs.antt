-- ===== src/Transfers/Tests/Runs.antt =====
-- The life cycle at concrete events.
-- Code: packages/transfers/src/index.ts.
use alpha_proof.Base.{ℕ, ◌≡◌, refl, none, some, List, [], ◌∷◌, ok, err, invalid_transition, arith}
use alpha_proof.Transfers.State.{
  TransferEvent, EventKind, LifecycleState, parse_transfer, parse_event, transfer_in_range,
}
use alpha_proof.Transfers.Evidence.{verify_receipt, verify_evidence}
use alpha_proof.Transfers.Lifecycle.{
  advance, check_event, apply_transfer_event, replay_events, replay_transfer,
}
use alpha_proof.Transfers.Table.{
  transition, apply_transfer_event-transition, apply_transfer_event-refused,
}
use alpha_proof.Transfers.Invariant.{IsSound, apply_transfer_event-IsSound}
use alpha_proof.Transfers.Tests.Events.{
  apply-attested, apply-failed, attested_event, burn_event, confirmed_event, created, delayed_event,
  event, failed_event, hash, pending, ready, retrying, settled,
}

apply_transfer_event-transition_example :
    transition LifecycleState.attestation_pending EventKind.attestation_observed
    ≡ some LifecycleState.ready_to_receive
apply_transfer_event-transition_example =
    apply_transfer_event-transition hash pending (attested_event 2) apply-attested

late-parsed : parse_event (delayed_event 3) ≡ ok (delayed_event 3)
unfolding parse_event
late-parsed = refl

ready-parsed : parse_transfer ready ≡ ok ready
unfolding parse_transfer transfer_in_range
ready-parsed = refl

late-checked : check_event ready (delayed_event 3) ≡ ok tt
unfolding check_event verify_evidence verify_receipt
late-checked = refl

late-absent : transition LifecycleState.ready_to_receive EventKind.attestation_delayed ≡ none
unfolding transition
late-absent = refl

apply_transfer_event-refused_example :
    apply_transfer_event hash ready (delayed_event 3) ≡ err invalid_transition
apply_transfer_event-refused_example =
    apply_transfer_event-refused hash ready (delayed_event 3) ready-parsed late-parsed late-checked
      late-absent

ready-IsSound : IsSound ready
ready-IsSound = record { attempts = omega arith; message = refl; closure = refl }

apply_transfer_event-IsSound_example : IsSound retrying
apply_transfer_event-IsSound_example =
    apply_transfer_event-IsSound hash ready failed_event ready-IsSound apply-failed

abbrev events : List TransferEvent
events =
    record (event 0 5 EventKind.reserved) { reason_code = none }
    ∷ burn_event
    ∷ attested_event 2
    ∷ confirmed_event
    ∷ []

abbrev state_hashes : List ℕ
state_hashes = 0 ∷ 1 ∷ 2 ∷ 3 ∷ 4 ∷ []

replay-events : replay_transfer hash created events ≡ ok (settled, state_hashes)
unfolding parse_transfer parse_event transfer_in_range check_event verify_receipt verify_evidence
    advance apply_transfer_event replay_events replay_transfer
replay-events = refl
