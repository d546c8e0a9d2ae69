-- ===== src/Storage/Repository/History.antt =====
-- The history of a transfer, from its creation over any steps.
-- Code: packages/storage/src/m5.ts (`TransferRepository`).
use alpha_proof.Base.{
  ◌≡◌, refl, sym, ap, subst, ◌∙◌, inl, inr, some, [], ◌==◌, find, find-kept, filter, ok,
}
use alpha_proof.Accounting.State.{Ident, Timestamp}
use alpha_proof.Transfers.State.{Transfer}
use alpha_proof.Storage.Queue.{claim_transfer}
use alpha_proof.Storage.Repository.{Database, Contents, create, transfer_is, transfer_row}
use alpha_proof.Storage.Repository.Append.{claim, retry, wake_waiting, events}
use alpha_proof.Storage.Repository.Created.{transfer_ids, job_ids, create-whole}
use alpha_proof.Storage.Repository.Steps.{Step, Reaches}
use alpha_proof.Storage.Repository.Jobs.{Step-HasJobs, Reaches-HasJobs}
use alpha_proof.Storage.Repository.Replayed.{Replays, append_event-Replays, create-Replays}

-- A step that leaves the events as they are and the row where it is.
Replays-kept :
    (c : Contents) (initial : Transfer) (id : Ident) (db db' : Database)
    (v : Replays c initial id db)
    → db'.events ≡ db.events
    → find (transfer_is id) db'.transfers ≡ some v.row
    → Replays c initial id db'
unfolding events
Replays-kept c initial id db db' v same found = record {
  row = v.row;
  stored = v.stored;
  hashes = v.hashes;
  found = found;
  read = rw same v.read;
  replayed = v.replayed;
  below = rw same v.below;
}

Step-Replays :
    (c : Contents) (initial : Transfer) (id : Ident) {db db' : Database}
    → Step c db db'
    → job_ids db ≡ transfer_ids db
    → Replays c initial id db
    → Replays c initial id db'
unfolding claim claim_transfer retry wake_waiting
Step-Replays c initial id {db} {db'} (Step.created now transfer) h v =
    elim (create-whole now transfer db h) [
      | inl e ↦
          let same = ap (λ x. x.1) e in
          Replays-kept c initial id db (create now transfer db).1 v (ap (λ d. d.events) same) (
            ap (λ d. find (transfer_is id) d.transfers) same
            ∙ find-kept (transfer_is id) db.transfers (transfer_row transfer) v.row v.found)
      | inr (code, e) ↦ subst (Replays c initial id) (sym (ap (λ x. x.1) e)) v
    ]
Step-Replays c initial id {db} {db'} (Step.appended now other event costs t ran) h v =
    append_event-Replays c initial now id other event costs db v ran
Step-Replays c initial id {db} {db'} (Step.claimed worker seconds now) h v =
    Replays-kept c initial id db (claim worker seconds now db).1 v refl v.found
Step-Replays c initial id {db} {db'} (Step.retried other code seconds now) h v =
    Replays-kept c initial id db (retry other code seconds now db) v refl v.found
Step-Replays c initial id {db} {db'} (Step.woken other now) h v =
    Replays-kept c initial id db (wake_waiting other now db) v refl v.found

Reaches-Replays :
    (c : Contents) (initial : Transfer) (id : Ident) {db db' : Database}
    → Reaches c db db'
    → job_ids db ≡ transfer_ids db
    → Replays c initial id db
    → Replays c initial id db'
Reaches-Replays c initial id Reaches.here h v = v
Reaches-Replays c initial id (Reaches.step before s) h v =
    Step-Replays c initial id s (Reaches-HasJobs c before h)
      (Reaches-Replays c initial id before h v)

-- After any steps from the creation of a transfer, where every transfer had one job and no event
-- was stored for this one: its stored events, read back in their order, replay from the transfer
-- that was created to its row, and their sequence numbers are below the one that it expects.
pub create-Reaches-Replays :
    (c : Contents) (now : Timestamp) (transfer : Transfer) (db : Database) {t : Transfer}
    {created db' : Database}
    → job_ids db ≡ transfer_ids db
    → filter (λ row. row.transfer_id == transfer.transfer_id) db.events ≡ []
    → create now transfer db ≡ (ok t, created)
    → Reaches c created db'
    → Replays c transfer transfer.transfer_id db'
create-Reaches-Replays c now transfer db {t} {created} h absent ran steps =
    Reaches-Replays c transfer transfer.transfer_id steps
      (subst (λ x. job_ids x ≡ transfer_ids x) (ap (λ x. x.1) ran)
        (Step-HasJobs c (Step.created now transfer) h))
      (create-Replays c now transfer db absent ran)
