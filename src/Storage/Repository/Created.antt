-- ===== src/Storage/Repository/Created.antt =====
-- What the creation of a transfer writes.
-- Code: packages/storage/src/m5.ts (`create`).
use alpha_proof.Base.{
  ◌≡◌, refl, sym, ap, subst, ◌∙◌, ◌⊎◌, inl, inr, true, false, not, List, [], ◌∷◌, map, any, push,
  ◌==◌, ==_iff, Result, ok, throw_if, throw_if-ok, ok-injective, err, constraint_violated,
  Result-cases, ErrorCode, ◌>>=◌, includes, >>=-elim, >>-elim, arith,
}
use alpha_proof.Accounting.State.{Ident, Timestamp}
use alpha_proof.Transfers.State.{Transfer, parse_transfer}
use alpha_proof.Transfers.Table.{parse_transfer-same}
use alpha_proof.Storage.Queue.{TransferJob}
use alpha_proof.Storage.Repository.{
  TransferRow, Database, transfer_is, job_is, scenario_is, message_taken, insert_transfer,
  transfer_row, new_job, with_transfer_job, with_transfer_row, create,
}
use alpha_proof.Storage.Repository.Appended.{insert-ok}

-- The rows with those of a new transfer.
abbrev pub with_transfer : Timestamp → Transfer → Database → Database
with_transfer now transfer db = record db {
  transfers = push db.transfers (transfer_row transfer);
  jobs = push db.jobs (new_job now transfer.transfer_id);
}

-- What the first insertion asks and writes.
pub record Inserted (transfer : Transfer) (db : Database) (rows : List TransferRow) : Type 0 where
  pub in_range : parse_transfer transfer ≡ ok transfer
  pub scenario : any (scenario_is transfer.experiment_id transfer.scenario_id) db.scenarios ≡ true
  pub message_free : message_taken transfer.message_identity db.transfers ≡ false
  pub transfer_free : any (transfer_is transfer.transfer_id) db.transfers ≡ false
  pub pushed : rows ≡ push db.transfers (transfer_row transfer)

abbrev first_insertion : Transfer → Database → Result (List TransferRow)
first_insertion transfer db = parse_transfer transfer >>= λ parsed. insert_transfer parsed db

first_insertion-Inserted :
    (transfer : Transfer) (db : Database) {rows : List TransferRow}
    → first_insertion transfer db ≡ ok rows
    → Inserted transfer db rows
unfolding insert_transfer
first_insertion-Inserted transfer db {rows} h =
    >>=-elim (parse_transfer transfer) _ h λ p parsed h₁.
      let e = parse_transfer-same transfer parsed in
      >>-elim
        (throw_if (not (any (scenario_is p.experiment_id p.scenario_id) db.scenarios))
          constraint_violated)
        _ h₁
        λ there h₂.
          >>-elim (throw_if (message_taken p.message_identity db.transfers) constraint_violated) _
            h₂
            λ free h₃.
              let i = insert-ok (transfer_is p.transfer_id) (transfer_row p) db.transfers h₃ in
              subst (λ x. Inserted x db rows) e
                (record {
                  in_range = subst (λ x. parse_transfer x ≡ ok p) (sym e) parsed;
                  scenario = ground (arith, throw_if-ok _ _ there);
                  message_free = throw_if-ok _ _ free;
                  transfer_free = i.0;
                  pushed = i.1;
                })

with_transfer_job-ok :
    (transfer : Transfer) (db : Database) (r : Result (List TransferJob)) {t : Transfer}
    {db' : Database}
    → with_transfer_job transfer db r ≡ (ok t, db')
    → (jobs : List TransferJob) × (r ≡ ok jobs) × (t ≡ transfer) × (db' ≡ record db { jobs = jobs })
with_transfer_job-ok transfer db (Result.err code) h = absurd (cc (ap (λ x. x.0) h))
with_transfer_job-ok transfer db (Result.ok jobs) h =
    (jobs, refl, ok-injective (sym (ap (λ x. x.0) h)), sym (ap (λ x. x.1) h))

with_transfer_row-ok :
    (now : Timestamp) (transfer : Transfer) (db : Database) (r : Result (List TransferRow))
    {t : Transfer} {db' : Database}
    → with_transfer_row now transfer db r ≡ (ok t, db')
    → (rows : List TransferRow) × (r ≡ ok rows)
      × (t ≡ transfer)
      × (db'
          ≡ record db { transfers = rows; jobs = push db.jobs (new_job now transfer.transfer_id) })
with_transfer_row-ok now transfer db (Result.err code) h = absurd (cc (ap (λ x. x.0) h))
with_transfer_row-ok now transfer db (Result.ok rows) h =
    let (jobs, inserted, same, result) =
      with_transfer_job-ok transfer (record db { transfers = rows }) _ h in
    let i =
      insert-ok (job_is transfer.transfer_id) (new_job now transfer.transfer_id) db.jobs inserted in
    (rows, refl, same, result ∙ ap (λ x. record db { transfers = rows; jobs = x }) i.1)

pub create-Created :
    (now : Timestamp) (transfer : Transfer) (db : Database) {t : Transfer} {db' : Database}
    → create now transfer db ≡ (ok t, db')
    → (rows : List TransferRow) × Inserted transfer db rows
      × (t ≡ transfer)
      × (db' ≡ with_transfer now transfer db)
unfolding create
create-Created now transfer db {t} {db'} h =
    let (rows, inserted, same, result) =
      with_transfer_row-ok now transfer db (first_insertion transfer db) h in
    let i = first_insertion-Inserted transfer db inserted in
    (
      rows,
      i,
      same,
      result
          ∙ ap
              (λ x. record db {
                transfers = x;
                jobs = push db.jobs (new_job now transfer.transfer_id);
              })
              i.pushed,
    )

-- Every transfer has one job, and every job is of a transfer, in the same order.
abbrev pub transfer_ids : Database → List Ident
transfer_ids db = map (λ row. row.transfer_id) db.transfers

abbrev pub job_ids : Database → List Ident
job_ids db = map (λ row. row.lease.identity) db.jobs

any-ids {ℓ} :
    {A : Type ℓ} (key : A → Ident) (id : Ident) (rows : List A)
    → any (λ row. key row == id) rows ≡ includes id (map key rows)
any-ids key id [] = refl
any-ids key id (x ∷ xs) = ground (arith, ==_iff (key x) id, ==_iff id (key x), any-ids key id xs)

-- The second insertion does not fail where the first did not.
with_transfer_row-whole :
    (now : Timestamp) (transfer : Transfer) (db : Database) (rows : List TransferRow)
    → any (job_is transfer.transfer_id) db.jobs ≡ false
    → with_transfer_row now transfer db (ok rows) ≡ (
      ok transfer,
      record db { transfers = rows; jobs = push db.jobs (new_job now transfer.transfer_id) },
    )
with_transfer_row-whole now transfer db rows free = rw free refl

-- Where every transfer has one job, a transfer that is created gets both of its rows, and one that
-- is refused none.
pub create-whole :
    (now : Timestamp) (transfer : Transfer) (db : Database)
    → job_ids db ≡ transfer_ids db
    → (create now transfer db ≡ (ok transfer, with_transfer now transfer db))
      ⊎ ((code : ErrorCode) × (create now transfer db ≡ (err code, db)))
unfolding create
create-whole now transfer db h = elim (Result-cases (first_insertion transfer db)) [
  | inl (rows, inserted) ↦
      let i = first_insertion-Inserted transfer db inserted in
      let free =
        any-ids (λ row. row.lease.identity) transfer.transfer_id db.jobs
        ∙ ap (includes transfer.transfer_id) h
        ∙ sym (any-ids (λ row. row.transfer_id) transfer.transfer_id db.transfers)
        ∙ i.transfer_free in
      inl (
        ap (with_transfer_row now transfer db) inserted
        ∙ with_transfer_row-whole now transfer db rows free
        ∙ ap
            (λ x. (
              ok transfer,
              record db { transfers = x; jobs = push db.jobs (new_job now transfer.transfer_id) },
            ))
            i.pushed)
  | inr (code, refused) ↦ inr (code, ap (with_transfer_row now transfer db) refused)
]
