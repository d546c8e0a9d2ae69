-- ===== src/Storage/Repository/Jobs.antt =====
-- The job of each transfer over the calls on the rows.
-- Code: packages/storage/src/m5.ts (`TransferRepository`).
use alpha_proof.Base.{
  ◌+◌, ◌≡◌, refl, sym, ap, subst, ◌∙◌, inl, inr, Option, none, some, List, ◌&&◌, map,
  map-update_first, map-push, push,
}
use alpha_proof.Accounting.State.{Ident, Timestamp}
use alpha_proof.Transfers.State.{Transfer, TransferEvent}
use alpha_proof.Storage.Queue.{TransferJob, next_row, leased_transfer, take_row, claim_transfer}
use alpha_proof.Storage.Repository.{Database, Contents, transfer_is, job_is, new_job, transfer_row}
use alpha_proof.Storage.Repository.Append.{
  claim, retry, wake_waiting, reset_job, retry_job, wake_job, set_transfer, job_state_after,
  is_waiting,
}
use alpha_proof.Storage.Repository.Appended.{written, append_event-Appended, Appended-cases}
use alpha_proof.Storage.Repository.Steps.{Step, Reaches}
use alpha_proof.Storage.Repository.Created.{transfer_ids, job_ids, create-whole, with_transfer}

take-ids :
    (worker : Ident) (until : Timestamp) (rows : List TransferJob) (o : Option TransferJob)
    → map
        (λ row. row.lease.identity)
        (take_row (λ row. row.lease) (leased_transfer worker) until rows o)
      ≡ map (λ row. row.lease.identity) rows
take-ids worker until rows none = refl
take-ids worker until rows (some row) =
    map-update_first (λ other. other.lease.identity) (leased_transfer worker until) (λ x. refl) _
      rows

with_transfer-ids :
    (now : Timestamp) (transfer : Transfer) (db : Database)
    → job_ids db ≡ transfer_ids db
    → job_ids (with_transfer now transfer db) ≡ transfer_ids (with_transfer now transfer db)
with_transfer-ids now transfer db h =
    map-push (λ row. row.lease.identity) db.jobs (new_job now transfer.transfer_id)
    ∙ ap (λ ids. push ids transfer.transfer_id) h
    ∙ sym (map-push (λ row. row.transfer_id) db.transfers (transfer_row transfer))

written-ids :
    (c : Contents) (now : Timestamp) (id : Ident) (t : Transfer) (event : TransferEvent)
    (db accounted : Database)
    → job_ids db ≡ transfer_ids db
    → job_ids (written c now id t event db accounted)
      ≡ transfer_ids (written c now id t event db accounted)
written-ids c now id t event db accounted h =
    map-update_first (λ row. row.lease.identity) (reset_job (job_state_after t.state) now)
      (λ x. refl) (job_is id) db.jobs
    ∙ h
    ∙ sym (
        map-update_first (λ row. row.transfer_id) (set_transfer t) (λ x. refl) (transfer_is id)
          db.transfers)

pub Step-HasJobs :
    (c : Contents) {db db' : Database}
    → Step c db db'
    → job_ids db ≡ transfer_ids db
    → job_ids db' ≡ transfer_ids db'
unfolding claim claim_transfer retry wake_waiting
Step-HasJobs c {db} {db'} (Step.created now transfer) h = elim (create-whole now transfer db h) [
  | inl e ↦
      subst (λ x. job_ids x ≡ transfer_ids x) (sym (ap (λ x. x.1) e))
        (with_transfer-ids now transfer db h)
  | inr (code, e) ↦ subst (λ x. job_ids x ≡ transfer_ids x) (sym (ap (λ x. x.1) e)) h
]
Step-HasJobs c {db} {db'} (Step.appended now id event costs t ran) h =
    let a = append_event-Appended c now id event costs db ran in
    elim (Appended-cases c now id event costs db a) [
      | inl (same, unchanged) ↦ subst (λ x. job_ids x ≡ transfer_ids x) (sym unchanged) h
      | inr (applied, r) ↦
          subst (λ x. job_ids x ≡ transfer_ids x) (sym r.rows)
            (written-ids c now id t event db r.accounted h)
    ]
Step-HasJobs c {db} {db'} (Step.claimed worker seconds now) h =
    take-ids worker (now + seconds) db.jobs (next_row (λ row. row.lease) now db.jobs) ∙ h
Step-HasJobs c {db} {db'} (Step.retried id code seconds now) h =
    map-update_first (λ other. other.lease.identity) (retry_job code (now + seconds)) (λ x. refl)
      (job_is id) db.jobs
    ∙ h
Step-HasJobs c {db} {db'} (Step.woken id now) h =
    map-update_first (λ other. other.lease.identity) (wake_job now) (λ x. refl)
      (λ row. job_is id row && is_waiting row.lease.state) db.jobs
    ∙ h

-- Where every transfer has one job, it has one after any steps.
pub Reaches-HasJobs :
    (c : Contents) {db db' : Database}
    → Reaches c db db'
    → job_ids db ≡ transfer_ids db
    → job_ids db' ≡ transfer_ids db'
Reaches-HasJobs c Reaches.here h = h
Reaches-HasJobs c (Reaches.step before s) h = Step-HasJobs c s (Reaches-HasJobs c before h)
