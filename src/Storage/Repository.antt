-- ===== src/Storage/Repository.antt =====
-- The rows of transfers, and the transactions on them: a transaction returns its rows or an error,
-- and then the rows are as before.
-- Code: packages/storage/src/m5.ts (`TransferRepository`), with the keys and the trigger of
-- db/migrations/0004_cctp_transfers.sql.
pub mod Append
pub mod Appended
pub mod Once
pub mod Created
pub mod Steps
pub mod Jobs
pub mod Accounts
pub mod Replayed
pub mod History
use alpha_proof.Base.{
  ℕ, ◌+◌, Bool, true, false, not, ◌&&◌, ◌||◌, Option, none, some, List, [], ◌∷◌, map, find, any,
  filter, push, sort_by, update_first, ◌==◌, ◌!=◌, is_some, when_some, opt_eq, if◌then◌else◌,
  Result, ok, ◌>>=◌, ◌>>◌, throw_if, or_throw, data_unavailable, operation_conflict,
  constraint_violated,
}
use alpha_proof.Accounting.State.{Ident, Hash, Timestamp, Portfolio, AccountingCost}
use alpha_proof.Accounting.Receipt.{Receipt}
use alpha_proof.Accounting.Apply.{Hasher, apply_receipt}
use alpha_proof.Transfers.State.{
  Transfer, TransferEvent, LifecycleState, EvidenceMode, parse_transfer, parse_event,
}
use alpha_proof.Transfers.Lifecycle.{apply_transfer_event}
use alpha_proof.Transfers.Receipts.{Names, accounting_receipt_for_transfer_event}
use alpha_proof.Storage.Queue.{JobState, Lease, TransferJob}

pub record TransferRow : Type 0 where
  pub transfer_id : Ident
  pub experiment_id : Ident
  pub scenario_id : Ident
  pub route_id : Ident
  pub lifecycle_state : LifecycleState
  pub evidence_mode : EvidenceMode
  pub message_identity : Option Ident
  pub payload : Transfer
  pub created_at : Timestamp
  pub updated_at : Timestamp

pub record EventRow : Type 0 where
  pub transfer_id : Ident
  pub sequence : ℕ
  pub event_id : Ident
  pub event_hash : Hash
  pub payload : TransferEvent

pub record ReceiptRow : Type 0 where
  pub transfer_id : Ident
  pub operation_id : Ident
  pub receipt_hash : Hash
  pub payload : Receipt
  pub applied_portfolio_version : ℕ

pub record ScenarioRow : Type 0 where
  pub experiment_id : Ident
  pub scenario_id : Ident
  pub portfolio : Portfolio
  pub portfolio_version : ℕ

pub record Database : Type 0 where
  pub transfers : List TransferRow
  pub jobs : List TransferJob
  pub events : List EventRow
  pub receipts : List ReceiptRow
  pub scenarios : List ScenarioRow

-- The hashes of contents, and the names that the code writes out.
pub record Contents : Type 0 where
  pub transfer_hash : Transfer → Hash
  pub event_content : TransferEvent → Hash
  pub hasher : Hasher
  pub names : Names

abbrev pub transfer_is : Ident → TransferRow → Bool
transfer_is id row = row.transfer_id == id

abbrev pub job_is : Ident → TransferJob → Bool
job_is id row = row.lease.identity == id

abbrev pub scenario_is : Ident → Ident → ScenarioRow → Bool
scenario_is experiment scenario row = row.experiment_id == experiment && row.scenario_id == scenario

abbrev pub event_is : Ident → EventRow → Bool
event_is id row = row.event_id == id

-- A message identity stands in one row at most; null stands in many.
abbrev pub message_taken : Option Ident → List TransferRow → Bool
message_taken message rows =
    is_some message && any (λ row. opt_eq row.message_identity message) rows

-- `INSERT`, with the rows that keep a new one out.
abbrev pub insert {ℓ} : {A : Type ℓ} → (A → Bool) → A → List A → Result (List A)
insert excludes row rows = do throw_if (any excludes rows) constraint_violated; ok (push rows row)

abbrev pub transfer_row : Transfer → TransferRow
transfer_row transfer = record {
  transfer_id = transfer.transfer_id;
  experiment_id = transfer.experiment_id;
  scenario_id = transfer.scenario_id;
  route_id = transfer.route_id;
  lifecycle_state = transfer.state;
  evidence_mode = transfer.evidence_mode;
  message_identity = transfer.message_identity;
  payload = transfer;
  created_at = transfer.created_at;
  updated_at = transfer.updated_at;
}

abbrev pub new_job : Timestamp → Ident → TransferJob
new_job now id = record {
  lease = record {
    identity = id;
    state = JobState.ready;
    available_at = now;
    leased_until = none;
    worker_id = none;
  };
  attempt = 0;
  last_error_code = none;
}

unfoldable pub insert_transfer : Transfer → Database → Result (List TransferRow)
insert_transfer transfer db = do
  throw_if (not (any (scenario_is transfer.experiment_id transfer.scenario_id) db.scenarios))
      constraint_violated
  throw_if (message_taken transfer.message_identity db.transfers) constraint_violated
  insert (transfer_is transfer.transfer_id) (transfer_row transfer) db.transfers

-- The second insertion of `create`. It is a transaction of its own: the rows of the first one stay
-- when it fails.
abbrev pub with_transfer_job :
    Transfer → Database → Result (List TransferJob) → Result Transfer × Database
with_transfer_job transfer db (Result.err code) = (Result.err code, db)
with_transfer_job transfer db (Result.ok jobs) = (ok transfer, record db { jobs = jobs })

abbrev pub with_transfer_row :
    Timestamp → Transfer → Database → Result (List TransferRow) → Result Transfer × Database
with_transfer_row now transfer db (Result.err code) = (Result.err code, db)
with_transfer_row now transfer db (Result.ok rows) =
    with_transfer_job transfer (record db { transfers = rows })
      (insert (job_is transfer.transfer_id) (new_job now transfer.transfer_id) db.jobs)

unfoldable pub create : Timestamp → Transfer → Database → Result Transfer × Database
create now transfer db =
    with_transfer_row now transfer db
      (do parsed ← parse_transfer transfer; insert_transfer parsed db)

unfoldable pub load : Ident → Database → Result Transfer
load id db = do
  row ← or_throw (find (transfer_is id) db.transfers) data_unavailable
  parse_transfer row.payload

-- The rows of receipts and scenarios, once an event has been accounted for.
abbrev pub receipt_row : Contents → Ident → Receipt → ℕ → ReceiptRow
receipt_row c id receipt version = record {
  transfer_id = id;
  operation_id = receipt.base.operation_id;
  receipt_hash = c.hasher.receipt_hash receipt;
  payload = receipt;
  applied_portfolio_version = version;
}

abbrev pub receipt_taken : Ident → Ident → ReceiptRow → Bool
receipt_taken id operation row = row.transfer_id == id && row.operation_id == operation

abbrev pub set_portfolio : Portfolio → ScenarioRow → ScenarioRow
set_portfolio portfolio row = record row {
  portfolio = portfolio;
  portfolio_version = portfolio.version;
}

unfoldable pub account :
    Contents → Ident → Transfer → ScenarioRow → Option Receipt → Database → Result Database
account c id before scenario none db = ok db
account c id before scenario (some receipt) db = do
  portfolio ← apply_receipt c.hasher scenario.portfolio receipt
  rows ←
      insert (receipt_taken id receipt.base.operation_id)
        (receipt_row c id receipt portfolio.version) db.receipts
  ok (record db {
    receipts = rows;
    scenarios =
        update_first (scenario_is before.experiment_id before.scenario_id) (set_portfolio portfolio)
          db.scenarios;
  })
