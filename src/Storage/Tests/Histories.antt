-- ===== src/Storage/Tests/Histories.antt =====
-- A transfer that is created, and its reservation.
-- Code: packages/storage/src/m5.ts (`TransferRepository`).
use alpha_proof.Base.{◌≡◌, refl, ◌⊎◌, [], ◌∷◌, ok, ErrorCode, err, ◌*◌, ◌+◌, arith}
use alpha_proof.Accounting.State.{Provenance}
use alpha_proof.Accounting.Check.Sound.{assert_portfolio-IsValid}
use alpha_proof.Accounting.Tests.Start.{
  hasher, start, start-accepted, reserve_receipt, reserved_state, apply-reserve,
}
use alpha_proof.Transfers.State.{
  Transfer, TransferEvent, EventKind, EvidenceMode, parse_transfer, parse_event, transfer_in_range,
}
use alpha_proof.Transfers.Evidence.{verify_receipt, verify_evidence}
use alpha_proof.Transfers.Lifecycle.{advance, check_event, apply_transfer_event}
use alpha_proof.Transfers.Receipts.{receipt_kind, accounting_receipt_for_transfer_event}
use alpha_proof.Transfers.Tests.Events.{hash, created, event}
use alpha_proof.Storage.Repository.{Database, Contents, insert_transfer, create, account}
use alpha_proof.Storage.Repository.Append.{
  update_transfer, record_event, append_parsed, append_event,
}
use alpha_proof.Storage.Repository.Appended.{written}
use alpha_proof.Storage.Repository.Once.{append_event-append_event}
use alpha_proof.Storage.Repository.Created.{with_transfer, create-whole}
use alpha_proof.Storage.Repository.Steps.{Step, Reaches}
use alpha_proof.Storage.Repository.Accounts.{Accounted, Reaches-Accounted}
use alpha_proof.Storage.Repository.Replayed.{Replays}
use alpha_proof.Storage.Repository.History.{create-Reaches-Replays}

abbrev contents : Contents
contents = record {
  transfer_hash = hash;
  event_content = λ e. e.event_id + 100 * e.sequence;
  hasher = hasher;
  names = record {
    sepolia_to_arc = 3;
    arc_to_sepolia = 4;
    arc_testnet = 10;
    ethereum_sepolia = 11;
  };
}

abbrev moved : Transfer
moved = record created {
  evidence_mode = EvidenceMode.synthetic;
  result_provenance = Provenance.forward_shadow;
}

abbrev reservation : TransferEvent
reservation = record (event 0 5 EventKind.reserved) { event_id = 40 }

abbrev reserved_transfer : Transfer
reserved_transfer = record moved { next_sequence = 1; updated_at = 5 }

abbrev empty : Database
empty = record {
  transfers = [];
  jobs = [];
  events = [];
  receipts = [];
  scenarios =
      record { experiment_id = 1; scenario_id = 2; portfolio = start; portfolio_version = 0 } ∷ [];
}

abbrev one_transfer : Database
one_transfer = with_transfer 4 moved empty

created_row : create 4 moved empty ≡ (ok moved, one_transfer)
unfolding parse_transfer transfer_in_range insert_transfer create
created_row = refl

abbrev accounted : Database
accounted = record one_transfer {
  receipts =
      record {
        transfer_id = 60;
        operation_id = 40;
        receipt_hash = 5040;
        payload = reserve_receipt;
        applied_portfolio_version = 1;
      }
      ∷ [];
  scenarios =
      record {
        experiment_id = 1;
        scenario_id = 2;
        portfolio = reserved_state;
        portfolio_version = 1;
      }
      ∷ [];
}

abbrev after_event : Database
after_event = written contents 6 60 reserved_transfer reservation one_transfer accounted

event_appended :
    append_event contents 6 60 reservation [] one_transfer ≡ ok (reserved_transfer, after_event)
unfolding parse_transfer parse_event transfer_in_range check_event verify_receipt verify_evidence
    advance apply_transfer_event receipt_kind accounting_receipt_for_transfer_event account
    update_transfer record_event append_parsed append_event
event_appended = rw apply-reserve refl

event_appended-Reaches : Reaches contents one_transfer after_event
event_appended-Reaches =
    Reaches.step Reaches.here (Step.appended 6 60 reservation [] reserved_transfer event_appended)

append_event-append_event_example :
    append_event contents 9 60 reservation [] after_event ≡ ok (reserved_transfer, after_event)
append_event-append_event_example =
    append_event-append_event contents 6 9 60 reservation [] one_transfer event_appended

create-Reaches-Replays_example : Replays contents moved 60 after_event
create-Reaches-Replays_example =
    create-Reaches-Replays contents 4 moved empty refl refl created_row event_appended-Reaches

one_transfer-Accounted : Accounted 1 2 0 one_transfer
one_transfer-Accounted = record {
  row = record { experiment_id = 1; scenario_id = 2; portfolio = start; portfolio_version = 0 };
  found = refl;
  version = refl;
  valid = (assert_portfolio-IsValid start start-accepted).1;
  reached = omega arith;
}

Reaches-Accounted_example : Accounted 1 2 0 after_event
Reaches-Accounted_example =
    Reaches-Accounted contents 1 2 0 refl one_transfer-Accounted event_appended-Reaches

create-whole_example :
    (create 4 moved empty ≡ (ok moved, one_transfer))
    ⊎ ((code : ErrorCode) × (create 4 moved empty ≡ (err code, empty)))
create-whole_example = create-whole 4 moved empty refl
