-- ===== src/Storage/Repository/Append.antt =====
-- The transaction that takes an event of a transfer, and the updates of the rows beside it.
-- Code: packages/storage/src/m5.ts (`appendEvent`, `claim`, `retry`, `wakeWaiting`, `events`),
-- with the keys and the trigger of db/migrations/0004_cctp_transfers.sql.
use alpha_proof.Base.{
  ℕ, ◌+◌, Bool, true, false, not, ◌&&◌, ◌||◌, Option, none, some, List, [], ◌∷◌, map, find, filter,
  sort_by, update_first, ◌==◌, ◌!=◌, is_some, opt_eq, Result, ok, ◌>>=◌, ◌>>◌, throw_if, or_throw,
  data_unavailable, operation_conflict, constraint_violated,
}
use alpha_proof.Accounting.State.{Ident, Timestamp, AccountingCost}
use alpha_proof.Transfers.State.{
  Transfer, TransferEvent, LifecycleState, parse_transfer, parse_event,
}
use alpha_proof.Transfers.Lifecycle.{apply_transfer_event}
use alpha_proof.Transfers.Receipts.{accounting_receipt_for_transfer_event}
use alpha_proof.Storage.Queue.{JobState, TransferJob, ClaimedTransfer, claim_transfer}
use alpha_proof.Storage.Repository.{
  TransferRow, EventRow, Database, Contents, transfer_is, job_is, scenario_is, event_is,
  message_taken, insert, account,
}

abbrev pub event_row : Contents → Ident → TransferEvent → EventRow
event_row c id event = record {
  transfer_id = id;
  sequence = event.sequence;
  event_id = event.event_id;
  event_hash = c.event_content event;
  payload = event;
}

abbrev pub event_taken : Ident → TransferEvent → EventRow → Bool
event_taken id event row =
    event_is event.event_id row || row.transfer_id == id && row.sequence == event.sequence

abbrev pub set_transfer : Transfer → TransferRow → TransferRow
set_transfer after row = record row {
  lifecycle_state = after.state;
  message_identity = after.message_identity;
  payload = after;
  updated_at = after.updated_at;
}

-- The trigger refuses another message identity once there is one, the key one of another row.
unfoldable pub update_transfer :
    Ident → Transfer → TransferRow → List TransferRow → Result (List TransferRow)
update_transfer id after row rows = do
  throw_if
      (is_some row.message_identity && not (opt_eq row.message_identity after.message_identity))
      constraint_violated
  throw_if
      (message_taken after.message_identity (filter (λ other. not (transfer_is id other)) rows))
      constraint_violated
  ok (update_first (transfer_is id) (set_transfer after) rows)

abbrev pub job_state_after : LifecycleState → JobState
job_state_after LifecycleState.settled = JobState.completed
job_state_after LifecycleState.source_failed = JobState.completed
job_state_after LifecycleState.invalidated = JobState.completed
job_state_after _ = JobState.ready

abbrev pub reset_job : JobState → Timestamp → TransferJob → TransferJob
reset_job state available_at row = record row {
  lease = record (row.lease) { state = state; available_at = available_at; leased_until = none };
}

-- The writes of an event that the life cycle accepts.
unfoldable pub record_event :
    Contents
    → Timestamp
    → Ident
    → Transfer
    → Transfer
    → TransferEvent
    → List AccountingCost
    → TransferRow
    → Database
    → Result (Transfer × Database)
record_event c now id before after event costs row db = do
  scenario ←
      or_throw (find (scenario_is before.experiment_id before.scenario_id) db.scenarios)
        data_unavailable
  receipt ←
      accounting_receipt_for_transfer_event c.names before after event scenario.portfolio.version
        costs
  accounted ← account c id before scenario receipt db
  events ← insert (event_taken id event) (event_row c id event) db.events
  transfers ← update_transfer id after row db.transfers
  ok (
    after,
    record accounted {
      events = events;
      transfers = transfers;
      jobs = update_first (job_is id) (reset_job (job_state_after after.state) now) db.jobs;
    },
  )

-- `prior`: the row of the event's identity, in whichever transfer's events it is.
unfoldable pub append_parsed :
    Contents
    → Timestamp
    → Ident
    → Transfer
    → TransferEvent
    → List AccountingCost
    → TransferRow
    → Database
    → Option EventRow
    → Result (Transfer × Database)
append_parsed c now id before event costs row db (some prior) = do
  throw_if (prior.event_hash != c.event_content event) operation_conflict
  ok (before, db)
append_parsed c now id before event costs row db none = do
  after ← apply_transfer_event c.transfer_hash before event
  record_event c now id before after event costs row db

unfoldable pub append_event :
    Contents
    → Timestamp
    → Ident
    → TransferEvent
    → List AccountingCost
    → Database
    → Result (Transfer × Database)
append_event c now id event_input costs db = do
  event ← parse_event event_input
  row ← or_throw (find (transfer_is id) db.transfers) data_unavailable
  before ← parse_transfer row.payload
  append_parsed c now id before event costs row db (find (event_is event.event_id) db.events)

unfoldable pub claim : Ident → ℕ → Timestamp → Database → Option ClaimedTransfer × Database
claim worker lease_seconds now db =
    let claimed = claim_transfer worker lease_seconds now db.jobs in
    (claimed.0, record db { jobs = claimed.1 })

abbrev pub retry_job : Ident → Timestamp → TransferJob → TransferJob
retry_job code available_at row = record (reset_job JobState.retry available_at row) {
  last_error_code = some code;
}

unfoldable pub retry : Ident → Ident → ℕ → Timestamp → Database → Database
retry id code delay_seconds now db = record db {
  jobs = update_first (job_is id) (retry_job code (now + delay_seconds)) db.jobs;
}

abbrev pub is_waiting : JobState → Bool
is_waiting JobState.waiting = true
is_waiting _ = false

abbrev pub wake_job : Timestamp → TransferJob → TransferJob
wake_job now row = record row {
  lease = record (row.lease) { state = JobState.ready; available_at = now };
}

unfoldable pub wake_waiting : Ident → Timestamp → Database → Database
wake_waiting id now db = record db {
  jobs = update_first (λ row. job_is id row && is_waiting row.lease.state) (wake_job now) db.jobs;
}

abbrev pub parse_events : List TransferEvent → Result (List TransferEvent)
parse_events [] = ok []
parse_events (event ∷ events) = do
  parsed ← parse_event event
  rest ← parse_events events
  ok (parsed ∷ rest)

-- The events of a transfer in the order of their sequence numbers.
unfoldable pub events : Ident → Database → Result (List TransferEvent)
events id db = parse_events (
    map (λ row. row.payload)
      (sort_by (λ row. row.sequence) (filter (λ row. row.transfer_id == id) db.events)))
