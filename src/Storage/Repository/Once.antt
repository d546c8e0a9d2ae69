-- ===== src/Storage/Repository/Once.antt =====
-- An event that was accepted, taken once more.
-- Code: packages/storage/src/m5.ts (`appendEvent`).
use alpha_proof.Base.{
  ◌≡◌, sym, ap, subst, ◌∙◌, inl, inr, none, some, List, find, find-push, if◌then◌else◌,
  Option-cases, ok, arith,
}
use alpha_proof.Accounting.State.{Ident, Timestamp, AccountingCost}
use alpha_proof.Transfers.State.{Transfer, TransferEvent, parse_event}
use alpha_proof.Transfers.Lifecycle.{apply_transfer_event}
use alpha_proof.Transfers.Table.{apply_transfer_event-Applied}
use alpha_proof.Storage.Repository.{TransferRow, Database, Contents, transfer_is, event_is}
use alpha_proof.Storage.Repository.Append.{event_row, set_transfer, append_parsed, append_event}
use alpha_proof.Storage.Repository.Appended.{
  Recorded, Appended, append_event-Appended, Appended-append_event, append_parsed-new,
  append_parsed-old, updated_row,
}

append_parsed-again :
    (c : Contents) (now : Timestamp) (id : Ident) (before : Transfer) (event : TransferEvent)
    (costs : List AccountingCost) (row : TransferRow) (db : Database)
    → append_parsed c now id before event costs row db (
        if event_is event.event_id (event_row c id event)
        then some (event_row c id event)
        else none)
      ≡ ok (before, db)
unfolding append_parsed
append_parsed-again c now id before event costs row db = ground arith

Recorded-Appended :
    (c : Contents) (now later : Timestamp) (id : Ident) (event : TransferEvent)
    (costs : List AccountingCost) (row : TransferRow) (db : Database) {t : Transfer}
    {db' : Database}
    → parse_event event ≡ ok event
    → find (transfer_is id) db.transfers ≡ some row
    → find (event_is event.event_id) db.events ≡ none
    → apply_transfer_event c.transfer_hash row.payload event ≡ ok t
    → Recorded c now id row.payload t event costs row db db'
    → Appended c later id event costs db' t db'
unfolding append_parsed
Recorded-Appended c now later id event costs row db {t} {db'} parsed found absent applied r =
    let a = apply_transfer_event-Applied c.transfer_hash row.payload event applied in
    let there =
      ap (λ d. find (event_is event.event_id) d.events) r.rows
      ∙ find-push (event_is event.event_id) db.events (event_row c id event) absent in
    record {
      row = set_transfer t row;
      parsed = parsed;
      found = rw r.rows (updated_row id t db.transfers row found);
      in_range = a.in_range;
      outcome = rw there (append_parsed-again c later id t event costs (set_transfer t row) db');
    }

-- An event that was accepted is accepted again at any later time, with the same transfer, and
-- changes no row then.
pub append_event-append_event :
    (c : Contents) (now later : Timestamp) (id : Ident) (event : TransferEvent)
    (costs : List AccountingCost) (db : Database) {t : Transfer} {db' : Database}
    → append_event c now id event costs db ≡ ok (t, db')
    → append_event c later id event costs db' ≡ ok (t, db')
unfolding append_parsed
append_event-append_event c now later id event costs db {t} {db'} h =
    let a = append_event-Appended c now id event costs db h in
    elim (Option-cases (find (event_is event.event_id) db.events)) [
      | inl absent ↦
          let (applied, r) = append_parsed-new c now id a.row.payload event costs a.row db (
            subst (λ o. append_parsed c now id a.row.payload event costs a.row db o ≡ ok (t, db'))
              absent a.outcome) in
          Appended-append_event c later id event costs db' (
            Recorded-Appended c now later id event costs a.row db a.parsed a.found absent applied r)
      | inr (prior, there) ↦
          let o' =
            subst (λ o. append_parsed c now id a.row.payload event costs a.row db o ≡ ok (t, db'))
              there a.outcome in
          let o = append_parsed-old c now id a.row.payload event costs a.row db prior o' in
          subst (λ d. append_event c later id event costs d ≡ ok (t, db')) (sym o.2)
            (Appended-append_event c later id event costs db (record {
              row = a.row;
              parsed = a.parsed;
              found = a.found;
              in_range = a.in_range;
              outcome = rw there o';
            }))
    ]
