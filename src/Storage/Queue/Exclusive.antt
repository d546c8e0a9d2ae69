-- ===== src/Storage/Queue/Exclusive.antt =====
-- What many claims do to the queue of jobs.
-- Code: packages/storage/src/m3.ts (`claimJob`).
use alpha_proof.Base.{
  map-update_first, ◌+◌, Bool, true, false, Option, none, some, List, [], ◌∷◌, map, distinct,
  includes, all, leb, arith, ◌≡◌, refl, subst, ap, ◌∙◌, ==_iff, ◌==◌,
}
use mathlib.Core.Option.{some-injective}
use alpha_proof.Accounting.State.{Ident, Timestamp}
use alpha_proof.Storage.Queue.{
  Lease, JobRow, ClaimedJob, ClaimCall, claim_job, claim_jobs, next_row, leased, take_row,
  claimed_of, with_job,
}
use alpha_proof.Storage.Queue.Leases.{Held, Held-taken, Held-take_row, Held-next_row}

abbrev pub job_ids : List JobRow → List Ident
job_ids rows = map (λ row. row.lease.identity) rows

abbrev pub called_by : Timestamp → ClaimCall → Bool
called_by until call = leb call.at_time until

abbrev lease_of : JobRow → Lease
lease_of row = row.lease

claim_job-distinct :
    (call : ClaimCall) (rows : List JobRow)
    → job_ids (claim_job call.worker call.lease_seconds call.at_time rows).1 ≡ job_ids rows
unfolding claim_job
claim_job-distinct call rows = kept (next_row lease_of call.at_time rows)
  where
    kept :
        (o : Option JobRow)
        → job_ids
            (take_row lease_of (leased call.worker) (call.at_time + call.lease_seconds) rows o)
          ≡ job_ids rows
    kept none = refl
    kept (some row) =
        map-update_first (λ row. row.lease.identity)
          (leased call.worker (call.at_time + call.lease_seconds)) (λ x. refl) _ rows

abbrev claimed_is : Ident → Option ClaimedJob → Bool
claimed_is i none = false
claimed_is i (some job) = i == job.job_id

with_job-absent :
    (i : Ident) (o : Option ClaimedJob) (ids : List Ident)
    → claimed_is i o ≡ false
    → includes i ids ≡ false
    → includes i (with_job o ids) ≡ false
with_job-absent i none ids h t = t
with_job-absent i (some job) ids h t = ground arith

-- The claim is of another job, and the worker that holds this one goes on holding it.
claim_job-skips :
    (i : Ident) (until : Timestamp) (call : ClaimCall) (rows : List JobRow) (o : Option JobRow)
    → next_row lease_of call.at_time rows ≡ o
    → Held lease_of i until rows
    → distinct (job_ids rows) ≡ true
    → called_by until call ≡ true
    → (claimed_is i (claimed_of o) ≡ false)
      × Held lease_of i until
          (take_row lease_of (leased call.worker) (call.at_time + call.lease_seconds) rows o)
claim_job-skips i until call rows none e v d h = (refl, v)
claim_job-skips i until call rows (some row) e v d h =
    let other = Held-next_row lease_of i until call.at_time rows v (ground arith) d e in
    (
      ground (arith, other, ==_iff i row.lease.identity),
      Held-take_row lease_of (leased call.worker) i until (call.at_time + call.lease_seconds) rows
          row (λ x. refl) v other,
    )

claim_jobs-skips :
    (i : Ident) (until : Timestamp) (calls : List ClaimCall) (rows : List JobRow)
    → Held lease_of i until rows
    → distinct (job_ids rows) ≡ true
    → all (called_by until) calls ≡ true
    → includes i (claim_jobs calls rows).0 ≡ false
unfolding claim_jobs claim_job
claim_jobs-skips i until [] rows v d h = refl
claim_jobs-skips i until (call ∷ calls) rows v d h =
    let o = next_row lease_of call.at_time rows in
    let (new, held) = claim_job-skips i until call rows o refl v d (ground arith) in
    let rest =
      claim_jobs-skips i until calls (claim_job call.worker call.lease_seconds call.at_time rows).1
        held (ap distinct (claim_job-distinct call rows) ∙ d) (ground arith) in
    with_job-absent i (claimed_of o) _ new rest

claim_job-Held :
    (call : ClaimCall) (rows : List JobRow) (job : ClaimedJob) (o : Option JobRow)
    → distinct (job_ids rows) ≡ true
    → next_row lease_of call.at_time rows ≡ o
    → claimed_of o ≡ some job
    → Held lease_of job.job_id
        (call.at_time + call.lease_seconds)
        (take_row lease_of (leased call.worker) (call.at_time + call.lease_seconds) rows o)
claim_job-Held call rows job none d e c = ground arith
claim_job-Held call rows job (some row) d e c =
    subst
      (λ j. Held lease_of j.job_id (call.at_time + call.lease_seconds) (
        take_row lease_of (leased call.worker) (call.at_time + call.lease_seconds) rows (some row)))
      (some-injective _ _ c)
      (Held-taken lease_of (leased call.worker) call.at_time (call.at_time + call.lease_seconds)
        rows row (λ x. refl) refl refl d e)

-- Where no two rows have the same identity: a job that a claim returned is returned by none of the
-- claims after it up to the time at which its lease runs out.
pub claim_jobs-exclusive :
    (call : ClaimCall) (rows : List JobRow) (job : ClaimedJob) (calls : List ClaimCall)
    → distinct (job_ids rows) ≡ true
    → (claim_job call.worker call.lease_seconds call.at_time rows).0 ≡ some job
    → all (called_by (call.at_time + call.lease_seconds)) calls ≡ true
    → includes job.job_id
        (claim_jobs calls (claim_job call.worker call.lease_seconds call.at_time rows).1).0
      ≡ false
unfolding claim_job
claim_jobs-exclusive call rows job calls d e h =
    claim_jobs-skips job.job_id (call.at_time + call.lease_seconds) calls
      (claim_job call.worker call.lease_seconds call.at_time rows).1
      (claim_job-Held call rows job (next_row lease_of call.at_time rows) d refl e)
      (ap distinct (claim_job-distinct call rows) ∙ d) h
