-- ===== src/Storage/Queue.antt =====
-- The queue of jobs: which one a worker gets, and the lease that it holds it by.
-- Calls run one after another: a call locks the row that it takes, and others skip it. Each call
-- has one time, the database's clock.
-- Code: packages/storage/src/m3.ts (`claimJob`), packages/storage/src/m5.ts (`claim`), packages/schemas/src/experiment.ts (`QueueJob`).
pub mod Leases
pub mod Exclusive
pub mod Drained
use alpha_proof.Base.{
  ℕ, ◌+◌, Bool, true, false, ◌&&◌, ◌||◌, Option, none, some, List, [], ◌∷◌, update_first, ltb, leb,
  ◌==◌, when_some, if◌then◌else◌, map, distinct,
}
use alpha_proof.Accounting.State.{Ident, Timestamp}

-- The states of both tables of jobs: only transfers can be waiting.
pub data JobState : Type 0 where
  ready running retry waiting completed failed : JobState

-- The columns that both tables of jobs are claimed by.
pub record Lease : Type 0 where
  pub identity : Ident
  pub state : JobState
  pub available_at : Timestamp
  pub leased_until : Option Timestamp
  pub worker_id : Option Ident

pub record JobRow : Type 0 where
  pub lease : Lease
  pub action_id : Ident
  pub attempt : ℕ
  pub max_attempts : ℕ

abbrev pub is_waiting_turn : JobState → Bool
is_waiting_turn JobState.ready = true
is_waiting_turn JobState.retry = true
is_waiting_turn _ = false

abbrev pub is_running : JobState → Bool
is_running JobState.running = true
is_running _ = false

-- The condition of the query.
unfoldable pub runnable : Timestamp → Lease → Bool
runnable now lease =
    is_waiting_turn lease.state && leb lease.available_at now
    || is_running lease.state && when_some lease.leased_until (λ until. ltb until now)

-- Its order: by the time of availability, then by the identity.
abbrev pub precedes : Lease → Lease → Bool
precedes a b =
    ltb a.available_at b.available_at
    || a.available_at == b.available_at && leb a.identity b.identity

module _ {ℓ} {A : Type ℓ} (lease_of : A → Lease) where
  abbrev pub first_of : A → Option A → Option A
  first_of row none = some row
  first_of row (some other) =
      if precedes (lease_of row) (lease_of other) then some row else some other

  -- The row that the query returns.
  unfoldable pub next_row : Timestamp → List A → Option A
  next_row now [] = none
  next_row now (row ∷ rows) =
      let rest = next_row now rows in
      let first = first_of row rest in if runnable now (lease_of row) then first else rest

  abbrev pub identity_of : A → Ident
  identity_of row = (lease_of row).identity

  -- The update of the row that the query returned, by its key.
  abbrev pub take_row : (Timestamp → A → A) → Timestamp → List A → Option A → List A
  take_row g until rows none = rows
  take_row g until rows (some row) =
      update_first (λ other. identity_of other == identity_of row) (g until) rows

abbrev pub least : ℕ → ℕ → ℕ
least a b = if leb a b then a else b

abbrev pub held : Ident → Timestamp → Lease → Lease
held worker until lease = record (lease) {
  state = JobState.running;
  leased_until = some until;
  worker_id = some worker;
}

-- The update of a claimed row.
abbrev pub leased : Ident → Timestamp → JobRow → JobRow
leased worker until row = record {
  lease = held worker until row.lease;
  action_id = row.action_id;
  attempt = least (row.attempt + 1) row.max_attempts;
  max_attempts = row.max_attempts;
}

pub record ClaimedJob : Type 0 where
  pub job_id : Ident
  pub action_id : Ident
  pub attempt : ℕ
  pub exhausted : Bool
  pub recovered_lease : Bool

abbrev pub claimed_of : Option JobRow → Option ClaimedJob
claimed_of none = none
claimed_of (some row) = some record {
  job_id = row.lease.identity;
  action_id = row.action_id;
  attempt = least (row.attempt + 1) row.max_attempts;
  exhausted = leb row.max_attempts row.attempt;
  recovered_lease = is_running row.lease.state;
}

unfoldable pub claim_job : Ident → ℕ → Timestamp → List JobRow → Option ClaimedJob × List JobRow
claim_job worker lease_seconds now rows =
    let row = next_row (λ row. row.lease) now rows in
    (claimed_of row, take_row (λ row. row.lease) (leased worker) (now + lease_seconds) rows row)

-- The jobs of transfers.
pub record TransferJob : Type 0 where
  pub lease : Lease
  pub attempt : ℕ
  pub last_error_code : Option Ident

abbrev pub leased_transfer : Ident → Timestamp → TransferJob → TransferJob
leased_transfer worker until row = record {
  lease = held worker until row.lease;
  attempt = row.attempt + 1;
  last_error_code = row.last_error_code;
}

pub record ClaimedTransfer : Type 0 where
  pub transfer_id : Ident
  pub attempt : ℕ

abbrev pub claimed_transfer_of : Option TransferJob → Option ClaimedTransfer
claimed_transfer_of none = none
claimed_transfer_of (some row) =
    some record { transfer_id = row.lease.identity; attempt = row.attempt + 1 }

unfoldable pub claim_transfer :
    Ident → ℕ → Timestamp → List TransferJob → Option ClaimedTransfer × List TransferJob
claim_transfer worker lease_seconds now rows =
    let row = next_row (λ row. row.lease) now rows in
    (
      claimed_transfer_of row,
      take_row (λ row. row.lease) (leased_transfer worker) (now + lease_seconds) rows row,
    )

-- Calls of `claimJob` one after another, and the jobs that they returned.
pub record ClaimCall : Type 0 where
  pub worker : Ident
  pub lease_seconds : ℕ
  pub at_time : Timestamp

abbrev pub with_job : Option ClaimedJob → List Ident → List Ident
with_job none ids = ids
with_job (some job) ids = job.job_id ∷ ids

unfoldable pub claim_jobs : List ClaimCall → List JobRow → List Ident × List JobRow
claim_jobs [] rows = ([], rows)
claim_jobs (call ∷ calls) rows =
    let claimed = claim_job call.worker call.lease_seconds call.at_time rows in
    let rest = claim_jobs calls claimed.1 in (with_job claimed.0 rest.0, rest.1)

-- Calls of `claim` by several workers at one moment, and the transfers that they returned.
abbrev pub with_transfer : Option ClaimedTransfer → List ClaimedTransfer → List ClaimedTransfer
with_transfer none claims = claims
with_transfer (some claimed) claims = claimed ∷ claims

unfoldable pub claim_transfers :
    List Ident → ℕ → Timestamp → List TransferJob → List ClaimedTransfer × List TransferJob
claim_transfers [] lease_seconds now rows = ([], rows)
claim_transfers (worker ∷ workers) lease_seconds now rows =
    let claimed = claim_transfer worker lease_seconds now rows in
    let rest = claim_transfers workers lease_seconds now claimed.1 in
    (with_transfer claimed.0 rest.0, rest.1)
