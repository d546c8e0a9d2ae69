-- ===== src/Storage/Journal.antt =====
-- The economic journal of experiments: each event names the hash of the one before it.
-- Code: packages/storage/src/m3.ts (`appendEvent`), with the keys of
-- db/migrations/0002_experiments.sql.
pub mod Chained
use alpha_proof.Base.{
  ℕ, ◌+◌, Bool, ◌&&◌, Option, none, some, List, [], ◌∷◌, ◌==◌, ltb, if◌then◌else◌, Result, ok,
  ◌>>=◌,
}
use alpha_proof.Canonical.{Value}
use alpha_proof.Accounting.State.{Ident, Hash, Timestamp, Provenance}
use alpha_proof.Storage.Repository.{insert}

-- The content that is hashed.
pub record JournalEvent : Type 0 where
  pub experiment_id : Ident
  pub sequence : ℕ
  pub event_type : Ident
  pub occurred_at : Timestamp
  pub result_provenance : Provenance
  pub payload : Value
  pub previous_event_hash : Option Hash

pub record JournalRow : Type 0 where
  pub experiment_id : Ident
  pub sequence : ℕ
  pub event_type : Ident
  pub occurred_at : Timestamp
  pub content_hash : Hash
  pub previous_event_hash : Option Hash
  pub payload : JournalEvent

abbrev pub later_of : JournalRow → Option JournalRow → Option JournalRow
later_of row none = some row
later_of row (some other) = if ltb row.sequence other.sequence then some other else some row

-- The row with the greatest sequence number.
unfoldable pub last_row : Ident → List JournalRow → Option JournalRow
last_row experiment [] = none
last_row experiment (row ∷ rows) =
    let rest = last_row experiment rows in
    let later = later_of row rest in if row.experiment_id == experiment then later else rest

abbrev pub sequence_of : Option JournalRow → ℕ
sequence_of none = 0
sequence_of (some row) = row.sequence

abbrev pub hash_of : Option JournalRow → Option Hash
hash_of none = none
hash_of (some row) = some row.content_hash

abbrev pub next_event :
    Ident → Ident → Timestamp → Value → Provenance → Option JournalRow → JournalEvent
next_event experiment event_type occurred_at payload provenance prior = record {
  experiment_id = experiment;
  sequence = sequence_of prior + 1;
  event_type = event_type;
  occurred_at = occurred_at;
  result_provenance = provenance;
  payload = payload;
  previous_event_hash = hash_of prior;
}

abbrev pub journal_row : (JournalEvent → Hash) → JournalEvent → JournalRow
journal_row content event = record {
  experiment_id = event.experiment_id;
  sequence = event.sequence;
  event_type = event.event_type;
  occurred_at = event.occurred_at;
  content_hash = content event;
  previous_event_hash = event.previous_event_hash;
  payload = event;
}

abbrev pub same_place : JournalEvent → JournalRow → Bool
same_place event row = row.experiment_id == event.experiment_id && row.sequence == event.sequence

unfoldable pub append_journal :
    (JournalEvent → Hash)
    → Ident
    → Ident
    → Timestamp
    → Value
    → Provenance
    → List JournalRow
    → Result (ℕ × Hash × List JournalRow)
append_journal content experiment event_type occurred_at payload provenance rows = do
  let event =
      next_event experiment event_type occurred_at payload provenance (last_row experiment rows)
  appended ← insert (same_place event) (journal_row content event) rows
  ok (event.sequence, content event, appended)
