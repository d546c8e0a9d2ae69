-- ===== src/Storage/Tests/Journals.antt =====
-- A journal of two experiments.
-- Code: packages/storage/src/m3.ts (`appendEvent`).
use alpha_proof.Base.{ℕ, ◌+◌, ◌*◌, ◌≡◌, refl, none, some, List, [], ◌∷◌, ok}
use alpha_proof.Canonical.{Value}
use alpha_proof.Accounting.State.{Provenance}
use alpha_proof.Storage.Journal.{
  JournalEvent, JournalRow, last_row, next_event, journal_row, append_journal,
}
use alpha_proof.Storage.Journal.Chained.{IsChained, append_journal-IsChained}

abbrev content : JournalEvent → ℕ
content event = event.experiment_id * 100 + event.sequence

abbrev row : ℕ → List JournalRow → JournalRow
row experiment rows =
    journal_row content
      (next_event experiment 8 20 Value.null Provenance.forward_shadow (last_row experiment rows))

abbrev first : JournalRow
first = record {
  experiment_id = 1;
  sequence = 1;
  event_type = 8;
  occurred_at = 20;
  content_hash = 101;
  previous_event_hash = none;
  payload = record {
    experiment_id = 1;
    sequence = 1;
    event_type = 8;
    occurred_at = 20;
    result_provenance = Provenance.forward_shadow;
    payload = Value.null;
    previous_event_hash = none;
  };
}

second_names_first : (row 1 (first ∷ [])).previous_event_hash ≡ some 101
unfolding last_row
second_names_first = refl

append_journal-IsChained_example :
    (append_journal content 1 8 20 Value.null Provenance.forward_shadow (first ∷ [])
      ≡ ok (2, 102, first ∷ row 1 (first ∷ []) ∷ []))
    × IsChained content 1 (first ∷ row 1 (first ∷ []) ∷ [])
unfolding last_row
append_journal-IsChained_example =
    append_journal-IsChained content 1 8 20 Value.null Provenance.forward_shadow (first ∷ []) 1 refl
      refl
