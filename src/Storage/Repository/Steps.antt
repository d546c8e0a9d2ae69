-- ===== src/Storage/Repository/Steps.antt =====
-- The calls on the rows of transfers as steps, and where they lead.
-- Code: packages/storage/src/m5.ts (`TransferRepository`).
use alpha_proof.Base.{ℕ, List, ok, ◌≡◌}
use alpha_proof.Accounting.State.{Ident, Timestamp, AccountingCost}
use alpha_proof.Transfers.State.{Transfer, TransferEvent}
use alpha_proof.Storage.Repository.{Database, Contents, create}
use alpha_proof.Storage.Repository.Append.{append_event, claim, retry, wake_waiting}

-- A step of the rows: a call that returned, whatever it returned.
pub data Step (c : Contents) : Database → Database → Type 0 where
  created :
      {db : Database} (now : Timestamp) (transfer : Transfer) → Step c db (create now transfer db).1
  appended :
      {db db' : Database} (now : Timestamp) (id : Ident) (event : TransferEvent)
      (costs : List AccountingCost) (t : Transfer)
      → append_event c now id event costs db ≡ ok (t, db')
      → Step c db db'
  claimed :
      {db : Database} (worker : Ident) (lease_seconds : ℕ) (now : Timestamp)
      → Step c db (claim worker lease_seconds now db).1
  retried :
      {db : Database} (id code : Ident) (delay_seconds : ℕ) (now : Timestamp)
      → Step c db (retry id code delay_seconds now db)
  woken : {db : Database} (id : Ident) (now : Timestamp) → Step c db (wake_waiting id now db)

-- The rows that steps lead to from these.
pub data Reaches (c : Contents) : Database → Database → Type 0 where
  here : {db : Database} → Reaches c db db
  step : {db mid db' : Database} → Reaches c db mid → Step c mid db' → Reaches c db db'
