-- ===== src/Storage/Journal/Chained.antt =====
-- The journal of an experiment before and after an append.
-- Code: packages/storage/src/m3.ts (`appendEvent`).
use alpha_proof.Base.{
  ℕ, ◌+◌, ◌<◌, ◌≡◌, refl, subst, ◌∙◌, inl, inr, Bool, true, false, ◌&&◌, Option, none, some, List,
  [], ◌∷◌, any, filter, filter-push, push, ◌==◌, opt_eq, Option-cases, Bool-cases, ok, arith,
}
use alpha_proof.Canonical.{Value}
use alpha_proof.Accounting.State.{Ident, Hash, Timestamp, Provenance}
use alpha_proof.Storage.Journal.{
  JournalEvent, JournalRow, later_of, last_row, sequence_of, next_event, journal_row, same_place,
  append_journal,
}

abbrev of_experiment : Ident → JournalRow → Bool
of_experiment experiment row = row.experiment_id == experiment

-- From a sequence number and a hash on: the numbers go up by one, each row names the hash before
-- it, and its own is that of its content.
abbrev pub chained : (JournalEvent → Hash) → ℕ → Option Hash → List JournalRow → Bool
chained content n previous [] = true
chained content n previous (row ∷ rows) =
    (row.sequence == n + 1
      && opt_eq row.previous_event_hash previous
      && row.content_hash == content row.payload)
    && chained content (n + 1) (some row.content_hash) rows

abbrev pub IsChained : (JournalEvent → Hash) → Ident → List JournalRow → Type 0
IsChained content experiment rows =
    chained content 0 none (filter (of_experiment experiment) rows) ≡ true

abbrev latest : List JournalRow → Option JournalRow
latest [] = none
latest (row ∷ rows) = later_of row (latest rows)

last_row-latest :
    (experiment : Ident) (rows : List JournalRow)
    → last_row experiment rows ≡ latest (filter (of_experiment experiment) rows)
unfolding last_row
last_row-latest experiment [] = refl
last_row-latest experiment (row ∷ rows) = ground (arith, last_row-latest experiment rows)

latest-after :
    (content : JournalEvent → Hash) (n : ℕ) (previous : Option Hash) (rows : List JournalRow)
    (row : JournalRow)
    → chained content n previous rows ≡ true
    → latest rows ≡ some row
    → n < row.sequence
latest-after content n previous [] row h e = ground arith
latest-after content n previous (x ∷ xs) row h e = elim (Option-cases (latest xs)) [
  | inl a ↦ ground (arith, a)
  | inr (r, a) ↦
      ground
        (arith, a, latest-after content (n + 1) (some x.content_hash) xs r (ground (arith, h)) a)
]

-- A row that prolongs a chain from its last row, or from where it begins.
abbrev follows : ℕ → Option Hash → Option JournalRow → JournalRow → Bool
follows n previous none row = row.sequence == n + 1 && opt_eq row.previous_event_hash previous
follows n previous (some last) row =
    row.sequence == last.sequence + 1 && opt_eq row.previous_event_hash (some last.content_hash)

chained-push :
    (content : JournalEvent → Hash) (n : ℕ) (previous : Option Hash) (rows : List JournalRow)
    (row : JournalRow)
    → chained content n previous rows ≡ true
    → follows n previous (latest rows) row ≡ true
    → row.content_hash ≡ content row.payload
    → chained content n previous (push rows row) ≡ true
chained-push content n previous [] row h f e = ground (arith, e)
chained-push content n previous (x ∷ xs) row h f e = elim (Option-cases (latest xs)) [
  | inl a ↦ ground (arith, a, chained-push content (n + 1) (some x.content_hash) xs row)
  | inr (r, a) ↦ ground (
    arith,
    a,
    latest-after content (n + 1) (some x.content_hash) xs r (ground (arith, h)) a,
    chained-push content (n + 1) (some x.content_hash) xs row,
  )
]

any-place :
    (event : JournalEvent) (rows : List JournalRow)
    → any (same_place event) rows
      ≡ any
          (λ row. row.sequence == event.sequence)
          (filter (of_experiment event.experiment_id) rows)
any-place event [] = refl
any-place event (x ∷ xs) = ground (arith, any-place event xs)

abbrev sequence_from : ℕ → Option JournalRow → ℕ
sequence_from n none = n
sequence_from n (some row) = row.sequence

-- No row of a chain has a number above that of its last row.
any-above :
    (content : JournalEvent → Hash) (n : ℕ) (previous : Option Hash) (rows : List JournalRow)
    (m : ℕ)
    → chained content n previous rows ≡ true
    → sequence_from n (latest rows) < m
    → any (λ row. row.sequence == m) rows ≡ false
any-above content n previous [] m h f = refl
any-above content n previous (x ∷ xs) m h f = elim (Option-cases (latest xs)) [
  | inl a ↦ ground (arith, a, any-above content (n + 1) (some x.content_hash) xs m)
  | inr (r, a) ↦ ground (
    arith,
    a,
    latest-after content (n + 1) (some x.content_hash) xs r (ground (arith, h)) a,
    any-above content (n + 1) (some x.content_hash) xs m,
  )
]

next_event-follows :
    (content : JournalEvent → Hash) (experiment event_type : Ident) (occurred_at : Timestamp)
    (payload : Value) (provenance : Provenance) (o : Option JournalRow)
    → follows 0 none o
        (journal_row content (next_event experiment event_type occurred_at payload provenance o))
      ≡ true
next_event-follows content experiment event_type occurred_at payload provenance none = ground arith
next_event-follows content experiment event_type occurred_at payload provenance (some row) =
    ground arith

sequence_from-next : (o : Option JournalRow) → sequence_from 0 o < sequence_of o + 1
sequence_from-next none = omega arith
sequence_from-next (some row) = omega arith

-- The journal of an experiment with a row more, which is its own or another's.
pushed-IsChained :
    (content : JournalEvent → Hash) (event : JournalEvent) (rows : List JournalRow) (other : Ident)
    → IsChained content other rows
    → follows 0 none
        (latest (filter (of_experiment event.experiment_id) rows))
        (journal_row content event)
      ≡ true
    → IsChained content other (push rows (journal_row content event))
pushed-IsChained content event rows other k f = elim (Bool-cases (event.experiment_id == other)) [
  | inl same ↦
      let e : event.experiment_id ≡ other = ground (arith, same) in
      let f' =
        subst
          (λ i.
            follows 0 none (latest (filter (of_experiment i) rows)) (journal_row content event)
            ≡ true)
          e f in
      rw (filter-push (of_experiment other) rows (journal_row content event), same)
        (chained-push content 0 none (filter (of_experiment other) rows) (journal_row content event)
          k f' refl)
  | inr differ ↦ rw (filter-push (of_experiment other) rows (journal_row content event), differ) k
]

-- Where the journal of an experiment is a chain, an event is appended without an error, with the
-- next number and the hash of the one before it, and the journal of every experiment that was a
-- chain is one after it.
pub append_journal-IsChained :
    (content : JournalEvent → Hash) (experiment event_type : Ident) (occurred_at : Timestamp)
    (payload : Value) (provenance : Provenance) (rows : List JournalRow) (other : Ident)
    → IsChained content experiment rows
    → IsChained content other rows
    → let event =
        next_event experiment event_type occurred_at payload provenance
          (last_row experiment rows) in
      (append_journal content experiment event_type occurred_at payload provenance rows
        ≡ ok (event.sequence, content event, push rows (journal_row content event)))
      × IsChained content other (push rows (journal_row content event))
unfolding append_journal
append_journal-IsChained content experiment event_type occurred_at payload provenance rows other h
      k =
    let event =
      next_event experiment event_type occurred_at payload provenance (last_row experiment rows) in
    let own = filter (of_experiment experiment) rows in
    let last = last_row-latest experiment rows in
    let free =
      any-place event rows
      ∙ any-above content 0 none own event.sequence h (
          subst (λ o. sequence_from 0 o < event.sequence) last
            (sequence_from-next (last_row experiment rows))) in
    (
      rw free refl,
      pushed-IsChained content event rows other k (
          subst (λ o. follows 0 none o (journal_row content event) ≡ true) last
            (next_event-follows content experiment event_type occurred_at payload provenance
              (last_row experiment rows))),
    )
