-- ===== src/Storage/Repository/Appended.antt =====
-- What an accepted event wrote.
-- Code: packages/storage/src/m5.ts (`appendEvent`).
use alpha_proof.Base.{
  ◌≡◌, refl, sym, ap, subst, subst₂, ◌∙◌, ◌⊎◌, inl, inr, Bool, false, not, ◌&&◌, Option, none, some,
  List, find, any, filter, find-update_same, push, update_first, is_some, opt_eq, Option-cases, ok,
  throw_if, throw_if-ok, ok-injective, or_throw, or_throw-eq-ok, data_unavailable,
  constraint_violated, >>=-elim, >>-elim, arith,
}
use alpha_proof.Accounting.State.{Ident, Timestamp, AccountingCost}
use alpha_proof.Accounting.Receipt.{Receipt}
use alpha_proof.Transfers.State.{Transfer, TransferEvent, parse_transfer, parse_event}
use alpha_proof.Transfers.Lifecycle.{apply_transfer_event}
use alpha_proof.Transfers.Receipts.{accounting_receipt_for_transfer_event}
use alpha_proof.Transfers.Table.{parse_transfer-same, parse_event-same}
use alpha_proof.Storage.Repository.{
  TransferRow, EventRow, ScenarioRow, Database, Contents, transfer_is, job_is, scenario_is,
  event_is, message_taken, insert, account,
}
use alpha_proof.Storage.Repository.Append.{
  event_row, event_taken, set_transfer, update_transfer, job_state_after, reset_job, record_event,
  append_parsed, append_event,
}

-- The rows once the accounting is done.
abbrev pub written :
    Contents → Timestamp → Ident → Transfer → TransferEvent → Database → Database → Database
written c now id after event db accounted = record accounted {
  events = push db.events (event_row c id event);
  transfers = update_first (transfer_is id) (set_transfer after) db.transfers;
  jobs = update_first (job_is id) (reset_job (job_state_after after.state) now) db.jobs;
}

-- What the writes of an accepted event were.
pub record Recorded (c : Contents) (now : Timestamp) (id : Ident) (before after : Transfer)
    (event : TransferEvent) (costs : List AccountingCost) (row : TransferRow) (db db' : Database)
    : Type 0 where
  pub scenario : ScenarioRow
  pub receipt : Option Receipt
  pub accounted : Database
  pub scenario_found :
      find (scenario_is before.experiment_id before.scenario_id) db.scenarios ≡ some scenario
  pub receipt_made :
      accounting_receipt_for_transfer_event c.names before after event scenario.portfolio.version
        costs
      ≡ ok receipt
  pub accounting : account c id before scenario receipt db ≡ ok accounted
  pub message_free :
      message_taken after.message_identity
        (filter (λ other. not (transfer_is id other)) db.transfers)
      ≡ false
  pub event_free : any (event_taken id event) db.events ≡ false
  pub rows : db' ≡ written c now id after event db accounted

pub insert-ok {ℓ} :
    {A : Type ℓ} (excludes : A → Bool) (row : A) (rows : List A) {rows' : List A}
    → insert excludes row rows ≡ ok rows'
    → (any excludes rows ≡ false) × (rows' ≡ push rows row)
insert-ok excludes row rows h =
    >>-elim (throw_if (any excludes rows) constraint_violated) _ h
      λ free rest. (throw_if-ok _ _ free, cc)

update_transfer-ok :
    (id : Ident) (after : Transfer) (row : TransferRow) (rows : List TransferRow)
    {rows' : List TransferRow}
    → update_transfer id after row rows ≡ ok rows'
    → (message_taken after.message_identity (filter (λ other. not (transfer_is id other)) rows)
        ≡ false)
      × (rows' ≡ update_first (transfer_is id) (set_transfer after) rows)
unfolding update_transfer
update_transfer-ok id after row rows h =
    >>-elim
      (throw_if
        (is_some row.message_identity && not (opt_eq row.message_identity after.message_identity))
        constraint_violated)
      _ h
      λ kept h₁.
        >>-elim
          (throw_if
            (message_taken after.message_identity
              (filter (λ other. not (transfer_is id other)) rows))
            constraint_violated)
          _ h₁ λ free h₂. (throw_if-ok _ _ free, cc)

record_event-Recorded :
    (c : Contents) (now : Timestamp) (id : Ident) (before after : Transfer) (event : TransferEvent)
    (costs : List AccountingCost) (row : TransferRow) (db : Database) {t : Transfer}
    {db' : Database}
    → record_event c now id before after event costs row db ≡ ok (t, db')
    → (t ≡ after) × Recorded c now id before after event costs row db db'
unfolding record_event
record_event-Recorded c now id before after event costs row db {t} {db'} h =
    >>=-elim
      (or_throw (find (scenario_is before.experiment_id before.scenario_id) db.scenarios)
        data_unavailable)
      _ h
      λ scenario found h₁.
        >>=-elim
          (accounting_receipt_for_transfer_event c.names before after event
            scenario.portfolio.version costs)
          _ h₁
          λ receipt made h₂.
            >>=-elim (account c id before scenario receipt db) _ h₂ λ accounted accounting h₃.
              >>=-elim (insert (event_taken id event) (event_row c id event) db.events) _ h₃
                λ events inserted h₄.
                  >>=-elim (update_transfer id after row db.transfers) _ h₄ λ transfers updated h₅.
                    let i =
                      insert-ok (event_taken id event) (event_row c id event) db.events inserted in
                    let u = update_transfer-ok id after row db.transfers updated in
                    (
                      cc,
                      record {
                        scenario = scenario;
                        receipt = receipt;
                        accounted = accounted;
                        scenario_found = or_throw-eq-ok _ _ found;
                        receipt_made = made;
                        accounting = accounting;
                        message_free = u.0;
                        event_free = i.0;
                        rows = rw (sym i.1, sym u.1) (sym (ap (λ x. x.1) (ok-injective h₅)));
                      },
                    )

-- What an accepted call found, and what it did: nothing, where the event is there already with
-- the same content, or the writes of an event that the life cycle accepts.
pub record Appended (c : Contents) (now : Timestamp) (id : Ident) (event : TransferEvent)
    (costs : List AccountingCost) (db : Database) (t : Transfer) (db' : Database) : Type 0 where
  pub row : TransferRow
  pub parsed : parse_event event ≡ ok event
  pub found : find (transfer_is id) db.transfers ≡ some row
  pub in_range : parse_transfer row.payload ≡ ok row.payload
  pub outcome :
      append_parsed c now id row.payload event costs row db
        (find (event_is event.event_id) db.events)
      ≡ ok (t, db')

pub append_event-Appended :
    (c : Contents) (now : Timestamp) (id : Ident) (event : TransferEvent)
    (costs : List AccountingCost) (db : Database) {t : Transfer} {db' : Database}
    → append_event c now id event costs db ≡ ok (t, db')
    → Appended c now id event costs db t db'
unfolding append_event
append_event-Appended c now id event costs db {t} {db'} h =
    >>=-elim (parse_event event) _ h λ e parsed h₁.
      >>=-elim (or_throw (find (transfer_is id) db.transfers) data_unavailable) _ h₁ λ row found h₂.
        >>=-elim (parse_transfer row.payload) _ h₂ λ before in_range h₃.
          let same = parse_event-same event parsed in
          let same_before = parse_transfer-same row.payload in_range in
          record {
            row = row;
            parsed = subst (λ x. parse_event event ≡ ok x) same parsed;
            found = or_throw-eq-ok _ _ found;
            in_range = subst (λ x. parse_transfer row.payload ≡ ok x) same_before in_range;
            outcome =
                subst₂
                  (λ x y.
                    append_parsed c now id y x costs row db (find (event_is x.event_id) db.events)
                    ≡ ok (t, db'))
                  same same_before h₃;
          }

pub Appended-append_event :
    (c : Contents) (now : Timestamp) (id : Ident) (event : TransferEvent)
    (costs : List AccountingCost) (db : Database) {t : Transfer} {db' : Database}
    → Appended c now id event costs db t db'
    → append_event c now id event costs db ≡ ok (t, db')
unfolding append_event
Appended-append_event c now id event costs db a = rw (a.parsed, a.found, a.in_range) a.outcome

pub append_parsed-new :
    (c : Contents) (now : Timestamp) (id : Ident) (before : Transfer) (event : TransferEvent)
    (costs : List AccountingCost) (row : TransferRow) (db : Database) {t : Transfer}
    {db' : Database}
    → append_parsed c now id before event costs row db none ≡ ok (t, db')
    → (apply_transfer_event c.transfer_hash before event ≡ ok t)
      × Recorded c now id before t event costs row db db'
unfolding append_parsed
append_parsed-new c now id before event costs row db {t} {db'} h =
    >>=-elim (apply_transfer_event c.transfer_hash before event) _ h λ after applied h₁.
      let (same, r) = record_event-Recorded c now id before after event costs row db h₁ in
      (
        applied ∙ ap ok (sym same),
        subst (λ x. Recorded c now id before x event costs row db db') (sym same) r,
      )

pub append_parsed-old :
    (c : Contents) (now : Timestamp) (id : Ident) (before : Transfer) (event : TransferEvent)
    (costs : List AccountingCost) (row : TransferRow) (db : Database) (prior : EventRow)
    {t : Transfer} {db' : Database}
    → append_parsed c now id before event costs row db (some prior) ≡ ok (t, db')
    → (prior.event_hash ≡ c.event_content event) × (t ≡ before) × (db' ≡ db)
unfolding append_parsed
append_parsed-old c now id before event costs row db prior h = ground arith

-- The row of a transfer after an update of it.
pub updated_row :
    (id : Ident) (after : Transfer) (rows : List TransferRow) (row : TransferRow)
    → find (transfer_is id) rows ≡ some row
    → find (transfer_is id) (update_first (transfer_is id) (set_transfer after) rows)
      ≡ some (set_transfer after row)
updated_row id after rows row h =
    find-update_same (λ other. other.transfer_id) (set_transfer after) (λ other. refl) id rows row h

-- The two outcomes of an accepted call.
pub Appended-cases :
    (c : Contents) (now : Timestamp) (id : Ident) (event : TransferEvent)
    (costs : List AccountingCost) (db : Database) {t : Transfer} {db' : Database}
    (a : Appended c now id event costs db t db')
    → (t ≡ a.row.payload) × (db' ≡ db)
      ⊎ (apply_transfer_event c.transfer_hash a.row.payload event ≡ ok t)
        × Recorded c now id a.row.payload t event costs a.row db db'
Appended-cases c now id event costs db {t} {db'} a =
    elim (Option-cases (find (event_is event.event_id) db.events)) [
      | inl absent ↦ inr (
          append_parsed-new c now id a.row.payload event costs a.row db (
            subst (λ o. append_parsed c now id a.row.payload event costs a.row db o ≡ ok (t, db'))
              absent a.outcome))
      | inr (prior, there) ↦
          let o = append_parsed-old c now id a.row.payload event costs a.row db prior (
            subst (λ o. append_parsed c now id a.row.payload event costs a.row db o ≡ ok (t, db'))
              there a.outcome) in
          inl (o.1, o.2)
    ]
