-- ===== src/Storage/Repository/Replayed.antt =====
-- The stored events of a transfer, replayed, beside its stored row.
-- Code: packages/storage/src/m5.ts (`create`, `appendEvent`, `events`), with `replayTransfer` of
-- packages/transfers/src/index.ts.
use alpha_proof.Base.{
  ◌+◌, ◌≡◌, ◌≢◌, refl, sym, ap, subst, ◌∙◌, inl, inr, Bool, true, false, none, some, List, [], ◌∷◌,
  find, any, all, filter, find-push, filter-push, all-push, all-implies, sort_by-push, map-push,
  find-update_other, push, sort_by, ◌==◌, ltb, leb, Bool-cases, eq_of_some, ok, >>=-elim, arith,
  ok-injective,
}
use alpha_proof.Accounting.State.{Ident, Hash, Timestamp, AccountingCost}
use alpha_proof.Transfers.State.{Transfer, TransferEvent, parse_transfer, parse_event}
use alpha_proof.Transfers.Lifecycle.{
  apply_transfer_event, replay_events, replay_transfer, check_event,
}
use alpha_proof.Transfers.Table.{apply_transfer_event-Applied}
use alpha_proof.Storage.Repository.{
  TransferRow, EventRow, Database, Contents, transfer_is, transfer_row, create,
}
use alpha_proof.Storage.Repository.Append.{
  event_row, set_transfer, append_event, parse_events, events,
}
use alpha_proof.Storage.Repository.Created.{create-Created}
use alpha_proof.Storage.Repository.Appended.{
  written, append_event-Appended, Appended-cases, updated_row,
}

abbrev event_of : Ident → EventRow → Bool
event_of id row = row.transfer_id == id

-- One more event of a replay.
replay_events-push :
    (hash : Transfer → Hash) (c : Transfer) (hs : List Hash) (es : List TransferEvent)
    (e : TransferEvent) {t n : Transfer} {gs : List Hash}
    → replay_events hash c hs es ≡ ok (t, gs)
    → apply_transfer_event hash t e ≡ ok n
    → parse_transfer n ≡ ok n
    → replay_events hash c hs (push es e) ≡ ok (n, push gs (hash n))
unfolding replay_events
replay_events-push hash c hs [] e {t} {n} {gs} h applied parsed =
    let same = ok-injective h in
    subst (λ x. replay_events hash x.0 x.1 (e ∷ []) ≡ ok (n, push gs (hash n))) (sym same)
      (rw (applied, parsed) refl)
replay_events-push hash c hs (e' ∷ es) e h applied parsed =
    >>=-elim (apply_transfer_event hash c e') _ h λ a applied' h₁.
      >>=-elim (parse_transfer a) _ h₁ λ m parsed' h₂.
        rw (applied', parsed') (replay_events-push hash m (push hs (hash m)) es e h₂ applied parsed)

replay_transfer-push :
    (hash : Transfer → Hash) (c : Transfer) (es : List TransferEvent) (e : TransferEvent)
    {t n : Transfer} {gs : List Hash}
    → replay_transfer hash c es ≡ ok (t, gs)
    → apply_transfer_event hash t e ≡ ok n
    → parse_transfer n ≡ ok n
    → replay_transfer hash c (push es e) ≡ ok (n, push gs (hash n))
unfolding replay_transfer
replay_transfer-push hash c es e h applied parsed =
    >>=-elim (parse_transfer c) _ h
      λ m parsed' h₁. rw parsed' (replay_events-push hash m (hash m ∷ []) es e h₁ applied parsed)

parse_events-push :
    (es : List TransferEvent) (e : TransferEvent) {fs : List TransferEvent}
    → parse_events es ≡ ok fs
    → parse_event e ≡ ok e
    → parse_events (push es e) ≡ ok (push fs e)
parse_events-push [] e h p = rw p (ap (λ z. ok (push z e)) (ok-injective h))
parse_events-push (x ∷ xs) e {fs} h p = >>=-elim (parse_event x) _ h λ y parsed h₁.
    >>=-elim (parse_events xs) _ h₁ λ ys rest h₂.
      rw (parsed, parse_events-push xs e rest p) (ap (λ z. ok (push z e)) (ok-injective h₂))

-- The row of a transfer and its events: they replay from an initial transfer to the row's, and
-- their sequence numbers are below the one that it expects.
pub record Replays (c : Contents) (initial : Transfer) (id : Ident) (db : Database) : Type 0 where
  pub row : TransferRow
  pub stored : List TransferEvent
  pub hashes : List Hash
  pub found : find (transfer_is id) db.transfers ≡ some row
  pub read : events id db ≡ ok stored
  pub replayed : replay_transfer c.transfer_hash initial stored ≡ ok (row.payload, hashes)
  pub below :
      all (λ other. ltb other.sequence row.payload.next_sequence) (filter (event_of id) db.events)
      ≡ true

filter-own :
    (c : Contents) (id : Ident) (event : TransferEvent) (rows : List EventRow)
    → filter (event_of id) (push rows (event_row c id event))
      ≡ push (filter (event_of id) rows) (event_row c id event)
filter-own c id event rows = filter-push (event_of id) rows (event_row c id event) ∙ ground arith

filter-other :
    (c : Contents) (id other : Ident) (event : TransferEvent) (rows : List EventRow)
    → other ≢ id
    → filter (event_of id) (push rows (event_row c other event)) ≡ filter (event_of id) rows
filter-other c id other event rows differ =
    filter-push (event_of id) rows (event_row c other event) ∙ ground arith

-- An event that goes to the end of the transfer's.
events-push :
    (c : Contents) (id : Ident) (event : TransferEvent) (db db' : Database)
    (es : List TransferEvent)
    → db'.events ≡ push db.events (event_row c id event)
    → all (λ other. leb other.sequence event.sequence) (filter (event_of id) db.events) ≡ true
    → parse_event event ≡ ok event
    → events id db ≡ ok es
    → events id db' ≡ ok (push es event)
unfolding events
events-push c id event db db' es h below parsed read =
    rw
      (
        h,
        filter-own c id event db.events,
        sort_by-push (λ row. row.sequence) (filter (event_of id) db.events) (event_row c id event)
            below,
        map-push (λ row. row.payload)
            (sort_by (λ row. row.sequence) (filter (event_of id) db.events)) (event_row c id event),
      )
      (parse_events-push _ event read parsed)

check_event-sequence :
    (t : Transfer) (e : TransferEvent) → check_event t e ≡ ok tt → e.sequence ≡ t.next_sequence
unfolding check_event
check_event-sequence t e h = ground arith

Replays-own :
    (c : Contents) (initial : Transfer) (now : Timestamp) (id : Ident) (event : TransferEvent)
    (db accounted : Database) {t : Transfer} (v : Replays c initial id db)
    → parse_event event ≡ ok event
    → apply_transfer_event c.transfer_hash v.row.payload event ≡ ok t
    → Replays c initial id (written c now id t event db accounted)
Replays-own c initial now id event db accounted {t} v parsed applied =
    let a = apply_transfer_event-Applied c.transfer_hash v.row.payload event applied in
    let sequence = check_event-sequence v.row.payload event a.checked in
    let rows = filter (event_of id) db.events in
    let next : t.next_sequence ≡ event.sequence + 1 =
      rw a.result (ap (λ n. n + 1) (sym sequence)) in
    let kept =
      all-implies (λ other. ltb other.sequence v.row.payload.next_sequence)
        (λ other. ltb other.sequence t.next_sequence) rows
        (λ x lower. ground (arith, lower, next, sequence)) v.below in
    record {
      row = set_transfer t v.row;
      stored = push v.stored event;
      hashes = push v.hashes (c.transfer_hash t);
      found = updated_row id t db.transfers v.row v.found;
      read =
          events-push c id event db (written c now id t event db accounted) v.stored refl
            (all-implies (λ other. ltb other.sequence v.row.payload.next_sequence)
              (λ other. leb other.sequence event.sequence) rows
              (λ x lower. ground (arith, lower, sequence)) v.below)
            parsed v.read;
      replayed =
          replay_transfer-push c.transfer_hash initial v.stored event v.replayed applied a.in_range;
      below = rw (filter-own c id event db.events) (
          all-push (λ other. ltb other.sequence t.next_sequence) rows (event_row c id event)
          ∙ ground (arith, next, kept));
    }

Replays-other :
    (c : Contents) (initial : Transfer) (now : Timestamp) (id other : Ident) (event : TransferEvent)
    (db accounted : Database) (t : Transfer)
    → other ≢ id
    → Replays c initial id db
    → Replays c initial id (written c now other t event db accounted)
unfolding events
Replays-other c initial now id other event db accounted t differ v =
    let same = filter-other c id other event db.events differ in
    record {
      row = v.row;
      stored = v.stored;
      hashes = v.hashes;
      found =
          find-update_other (λ row. row.transfer_id) (set_transfer t) (λ x. refl) id other
            db.transfers differ
          ∙ v.found;
      read = rw same v.read;
      replayed = v.replayed;
      below = rw same v.below;
    }

-- An accepted event, of this transfer or another, leads from a transfer whose stored events, read
-- back in their order, replay from an initial transfer to its row to one of which the same holds.
pub append_event-Replays :
    (c : Contents) (initial : Transfer) (now : Timestamp) (id other : Ident) (event : TransferEvent)
    (costs : List AccountingCost) (db : Database) {t : Transfer} {db' : Database}
    → Replays c initial id db
    → append_event c now other event costs db ≡ ok (t, db')
    → Replays c initial id db'
append_event-Replays c initial now id other event costs db {t} {db'} v h =
    let a = append_event-Appended c now other event costs db h in
    elim (Appended-cases c now other event costs db a) [
      | inl (same, unchanged) ↦ subst (Replays c initial id) (sym unchanged) v
      | inr (applied, r) ↦
          subst (Replays c initial id) (sym r.rows) (elim (Bool-cases (other == id)) [
            | inl mine ↦
                let e : other ≡ id = ground (arith, mine) in
                let v' = subst (λ k. Replays c initial k db) (sym e) v in
                let same = eq_of_some (sym v'.found ∙ a.found) in
                subst (λ k. Replays c initial k (written c now other t event db r.accounted)) e
                  (Replays-own c initial now other event db r.accounted v' a.parsed (
                    subst (λ x. apply_transfer_event c.transfer_hash x.payload event ≡ ok t)
                      (sym same) applied))
            | inr differ ↦
                Replays-other c initial now id other event db r.accounted t (ground (arith, differ))
                  v
          ])
    ]

any-find {ℓ} : {A : Type ℓ} (p : A → Bool) (xs : List A) → any p xs ≡ false → find p xs ≡ none
any-find p [] h = refl
any-find p (x ∷ xs) h = ground (arith, any-find p xs)

new_row-found :
    (transfer : Transfer) (rows : List TransferRow)
    → any (transfer_is transfer.transfer_id) rows ≡ false
    → find (transfer_is transfer.transfer_id) (push rows (transfer_row transfer))
      ≡ some (transfer_row transfer)
new_row-found transfer rows free =
    find-push (transfer_is transfer.transfer_id) rows (transfer_row transfer)
      (any-find (transfer_is transfer.transfer_id) rows free)
    ∙ ground arith

-- A transfer that is created where no event is stored for it replays from itself.
pub create-Replays :
    (c : Contents) (now : Timestamp) (transfer : Transfer) (db : Database) {t : Transfer}
    {db' : Database}
    → filter (event_of transfer.transfer_id) db.events ≡ []
    → create now transfer db ≡ (ok t, db')
    → Replays c transfer transfer.transfer_id db'
unfolding events replay_transfer replay_events
create-Replays c now transfer db {t} {db'} absent h =
    let (rows, i, same, result) = create-Created now transfer db h in
    subst (Replays c transfer transfer.transfer_id) (sym result) (record {
      row = transfer_row transfer;
      stored = [];
      hashes = c.transfer_hash transfer ∷ [];
      found = new_row-found transfer db.transfers i.transfer_free;
      read = rw absent refl;
      replayed = rw i.in_range refl;
      below = rw absent refl;
    })
