-- ===== src/Storage/Tests/Claims.antt =====
-- Workers that claim jobs.
-- Code: packages/storage/src/m3.ts (`claimJob`), packages/storage/src/m5.ts (`claim`).
use alpha_proof.Base.{ℕ, ◌≡◌, refl, false, none, List, [], ◌∷◌, includes, length, arith}
use alpha_proof.Storage.Queue.{
  JobState, Lease, JobRow, ClaimedJob, ClaimCall, runnable, next_row, claim_job, claim_jobs,
  TransferJob, claim_transfers,
}
use alpha_proof.Storage.Queue.Exclusive.{claim_jobs-exclusive}
use alpha_proof.Storage.Queue.Drained.{waiting, claims_of, claim_transfers-drain}

abbrev lease : ℕ → JobState → ℕ → Lease
lease id state available = record {
  identity = id;
  state = state;
  available_at = available;
  leased_until = none;
  worker_id = none;
}

abbrev job : ℕ → JobState → ℕ → JobRow
job id state available = record {
  lease = lease id state available;
  action_id = 100;
  attempt = 0;
  max_attempts = 3;
}

abbrev jobs : List JobRow
jobs =
    job 1 JobState.ready 5
    ∷ job 2 JobState.retry 4
    ∷ job 3 JobState.waiting 1
    ∷ job 4 JobState.ready 90
    ∷ []

abbrev call : ℕ → ClaimCall
call time = record { worker = 7; lease_seconds = 30; at_time = time }

abbrev claimed : ClaimedJob
claimed = record {
  job_id = 2;
  action_id = 100;
  attempt = 1;
  exhausted = false;
  recovered_lease = false;
}

abbrev calls : List ClaimCall
calls = call 11 ∷ call 12 ∷ call 40 ∷ []

claims_in_order : (claim_jobs (call 10 ∷ calls) jobs).0 ≡ 2 ∷ 1 ∷ []
unfolding runnable next_row claim_job claim_jobs
claims_in_order = refl

claimed_again : (claim_jobs (call 10 ∷ call 41 ∷ call 41 ∷ []) jobs).0 ≡ 2 ∷ 2 ∷ 1 ∷ []
unfolding runnable next_row claim_job claim_jobs
claimed_again = refl

claim_jobs-exclusive_example : includes 2 (claim_jobs calls (claim_job 7 30 10 jobs).1).0 ≡ false
unfolding runnable next_row claim_job
claim_jobs-exclusive_example = claim_jobs-exclusive (call 10) jobs claimed calls refl refl refl

abbrev transfer_job : ℕ → JobState → ℕ → TransferJob
transfer_job id state available = record {
  lease = lease id state available;
  attempt = 0;
  last_error_code = none;
}

abbrev transfer_jobs : List TransferJob
transfer_jobs =
    transfer_job 1 JobState.ready 5
    ∷ transfer_job 2 JobState.completed 5
    ∷ transfer_job 3 JobState.retry 2
    ∷ []

claim_transfers-drain_example :
    (claims_of 3 (claim_transfers (7 ∷ 8 ∷ 9 ∷ []) 30 10 transfer_jobs).0
      ≡ record { transfer_id = 3; attempt = 1 } ∷ [])
    × (length (claim_transfers (7 ∷ 8 ∷ 9 ∷ []) 30 10 transfer_jobs).0 ≡ waiting 10 transfer_jobs)
    × (waiting 10 (claim_transfers (7 ∷ 8 ∷ 9 ∷ []) 30 10 transfer_jobs).1 ≡ 0)
unfolding runnable
claim_transfers-drain_example =
    claim_transfers-drain (7 ∷ 8 ∷ 9 ∷ []) 30 10 transfer_jobs 3 refl (omega arith)
