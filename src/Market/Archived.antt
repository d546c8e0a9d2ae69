-- ===== src/Market/Archived.antt =====
-- Reading what is archived, after more has been archived.
-- Code: packages/market-data/src/index.ts.
use alpha_proof.Base.{
  ◌≡◌, refl, sym, ap, ◌∙◌, true, false, not, ◌&&◌, Bool, Option, some, none, List, [], ◌∷◌, push,
  find, find-push, length, ◌!=◌, is_some, inl, inr, Bool-cases, Option-cases, ok, ok-injective,
  eq_of_some, subst, throw_if, throw_if-ok, or_throw, archive_integrity, >>=-elim, >>-elim, arith,
}
use alpha_proof.Accounting.State.{Hash, Timestamp}
use alpha_proof.Canonical.{Text, Value, canonical_json}
use alpha_proof.Market.Store.{
  Bytes, ObjectKey, key_eq, Stored, Archive, lookup, same_values, bytes_eq, put_if_absent, get,
}
use alpha_proof.Market.{
  archive_bytes, archive_json, archive_raw_json_bytes, read_archived_json, encode_utf8,
}
use alpha_proof.Market.Store.{RawObjectDescriptor}

same_values-eq : (a b : Bytes) → length a ≡ length b → same_values a b ≡ true → a ≡ b
same_values-eq [] [] l h = refl
same_values-eq [] (y ∷ ys) l h = absurd (omega (arith, l))
same_values-eq (x ∷ xs) [] l h = absurd (cc h)
same_values-eq (x ∷ xs) (y ∷ ys) l h = ground (arith, same_values-eq xs ys)

pub bytes_eq-eq : (a b : Bytes) → bytes_eq a b ≡ true → a ≡ b
unfolding bytes_eq
bytes_eq-eq a b h = ground (arith, same_values-eq a b)

pub key_eq_refl : (k : ObjectKey) → key_eq k k ≡ true
key_eq_refl (ObjectKey.content_key h) = ground arith
key_eq_refl (ObjectKey.other_key t) = ground arith

find-push_found {ℓ} :
    {A : Type ℓ} (p : A → Bool) (xs : List A) (x : A) {y : A}
    → find p xs ≡ some y
    → find p (push xs x) ≡ some y
find-push_found p [] x found = absurd (cc found)
find-push_found p (z ∷ zs) x {y} found = elim (Bool-cases (p z)) [
  | inl holds ↦ rw holds (rw holds at found)
  | inr fails ↦ rw fails (find-push_found p zs x {y = y} (rw fails at found))
]

abbrev stored : ObjectKey → Bytes → Stored
stored k b = record { key = k; bytes = b }

put-absent :
    (a : Archive) (k : ObjectKey) (b : Bytes)
    → lookup a k ≡ none
    → put_if_absent a k b ≡ ok (push a (stored k b))
unfolding put_if_absent
put-absent a k b absent = rw (absent, put_if_absent) refl

put-present :
    (a : Archive) (k : ObjectKey) (b : Bytes) {prior : Stored} {out : Archive}
    → lookup a k ≡ some prior
    → put_if_absent a k b ≡ ok out
    → (a ≡ out) × (prior.bytes ≡ b)
unfolding put_if_absent
put-present a k b {prior} found e =
    >>-elim (throw_if (not (bytes_eq prior.bytes b)) archive_integrity) (ok a)
      (rw (found, put_if_absent) at e)
      λ same e₁. (ok-injective e₁, bytes_eq-eq prior.bytes b (ground (arith, throw_if-ok _ _ same)))

pub lookup-get :
    (a : Archive) (k : ObjectKey) {s : Stored} → lookup a k ≡ some s → get a k ≡ some s.bytes
unfolding get
lookup-get a k found = rw (found, get) refl

get-lookup :
    (a : Archive) (k : ObjectKey) {b : Bytes}
    → get a k ≡ some b
    → (s : Stored) × (lookup a k ≡ some s) × (s.bytes ≡ b)
unfolding get
get-lookup a k e = elim (Option-cases (lookup a k)) [
  | inl absent ↦ absurd (cc (rw (absent, get) at e))
  | inr (s, found) ↦ (s, found, eq_of_some (rw (found, get) at e))
]

-- An object that is put in is there.
put_if_absent-get :
    (a : Archive) (k : ObjectKey) (b : Bytes) {out : Archive}
    → put_if_absent a k b ≡ ok out
    → get out k ≡ some b
put_if_absent-get a k b {out} e = elim (Option-cases (lookup a k)) [
  | inl absent ↦
      let added = ok-injective (sym (put-absent a k b absent) ∙ e) in
      let test = λ (x : Stored). key_eq x.key k in
      let found : lookup (push a (stored k b)) k ≡ some (stored k b) =
        find-push test a (stored k b) absent ∙ rw (key_eq_refl k) refl in
      subst (λ x. get x k ≡ some b) added (lookup-get (push a (stored k b)) k found)
  | inr (prior, found) ↦
      let (same, bytes) = put-present a k b found e in
      subst (λ x. get x k ≡ some b) same (lookup-get a k found ∙ ap some bytes)
]

-- What is there stays there.
pub put_if_absent-keeps :
    (a : Archive) (k other : ObjectKey) (b : Bytes) {c : Bytes} {out : Archive}
    → put_if_absent a k b ≡ ok out
    → get a other ≡ some c
    → get out other ≡ some c
put_if_absent-keeps a k other b {c} {out} e there =
    let (s, found, bytes) = get-lookup a other there in
    elim (Option-cases (lookup a k)) [
      | inl absent ↦
          let added = ok-injective (sym (put-absent a k b absent) ∙ e) in
          subst (λ x. get x other ≡ some c) added
            (lookup-get (push a (stored k b)) other
                (find-push_found (λ (x : Stored). key_eq x.key other) a (stored k b) found)
              ∙ ap some bytes)
      | inr (prior, present) ↦
          subst (λ x. get x other ≡ some c) (put-present a k b present e).0 there
    ]

-- An archive after any number of objects put in.
pub data Grows : Archive → Archive → Type 0 where
  unchanged : {a : Archive} → Grows a a
  grown :
      {a b c : Archive} (key : ObjectKey) (bytes : Bytes)
      → put_if_absent a key bytes ≡ ok b
      → Grows b c
      → Grows a c

Grows-keeps :
    {a b : Archive} (key : ObjectKey) {c : Bytes}
    → Grows a b
    → get a key ≡ some c
    → get b key ≡ some c
Grows-keeps key Grows.unchanged there = there
Grows-keeps key (Grows.grown {a} {b} {c} k bytes put rest) there =
    Grows-keeps key rest (put_if_absent-keeps a k key bytes put there)

no_json_accepted : (valid : Bool) → ¬ (throw_if (not (valid && false)) archive_integrity ≡ ok tt)
no_json_accepted true e = cc
no_json_accepted false e = cc

module _ (raw_bytes_hash : Bytes → Hash) (valid_utf8 : Bytes → Bool)
    (parse_json : Bytes → Option Value) where
  -- What a call that archives has done.
  record Archived (a : Archive) (b : Bytes) (d : RawObjectDescriptor) (out : Archive) : Type 0 where
    put : put_if_absent a (ObjectKey.content_key (raw_bytes_hash b)) b ≡ ok out
    object_hash : d.object_hash ≡ raw_bytes_hash b
    object_key : d.object_key ≡ ObjectKey.content_key (raw_bytes_hash b)
    content_length : d.content_length_bytes ≡ length b

  archive_bytes-Archived :
      (a : Archive) (b : Bytes) (time : Timestamp) {d : RawObjectDescriptor} {out : Archive}
      → archive_bytes raw_bytes_hash valid_utf8 parse_json a b time ≡ ok (d, out)
      → Archived a b d out
  unfolding archive_bytes
  archive_bytes-Archived a b time e =
      >>=-elim (put_if_absent a (ObjectKey.content_key (raw_bytes_hash b)) b) _ e λ x put e₁.
        let same = ok-injective e₁ in
        subst (λ y. Archived a b y.0 y.1) same
          (record { put = put; object_hash = refl; object_key = refl; content_length = refl })

  Archived-read :
      (a : Archive) (b : Bytes) (d : RawObjectDescriptor) {out later : Archive}
      → Archived a b d out
      → Grows out later
      → read_archived_json raw_bytes_hash valid_utf8 parse_json later d
        ≡ or_throw (parse_json b) archive_integrity
  unfolding read_archived_json
  Archived-read a b d r grows =
      let key = ObjectKey.content_key (raw_bytes_hash b) in
      let there = Grows-keeps key grows (put_if_absent-get a key b r.put) in
      let same_length : (length b != length b) ≡ false = ground arith in
      let same_hash : (raw_bytes_hash b != raw_bytes_hash b) ≡ false = ground arith in
      rw (r.object_key, r.content_length, r.object_hash, there, same_length, same_hash) refl

  -- Bytes that are archived are JSON, and are read back as it, under the descriptor that they were
  -- given, from the archive after any number of objects put in later.
  pub archive_raw_json_bytes-read :
      (a : Archive) (b : Bytes) (time : Timestamp) {d : RawObjectDescriptor} {out later : Archive}
      → archive_raw_json_bytes raw_bytes_hash valid_utf8 parse_json a b time ≡ ok (d, out)
      → Grows out later
      → (item : Value) × (parse_json b ≡ some item)
        × (read_archived_json raw_bytes_hash valid_utf8 parse_json later d ≡ ok item)
  unfolding archive_raw_json_bytes
  archive_raw_json_bytes-read a b time {d} {out} e grows =
      >>-elim (throw_if (not (valid_utf8 b && is_some (parse_json b))) archive_integrity) _ e
        λ parses e₁.
          let read =
            Archived-read a b d (archive_bytes-Archived a b time {d = d} {out = out} e₁) grows in
          elim (Option-cases (parse_json b)) [
            | inl no_json ↦ absurd (no_json_accepted (valid_utf8 b) (rw no_json at parses))
            | inr (item, is_json) ↦ (item, is_json, read ∙ rw is_json refl)
          ]

  -- A value that is archived is read back from its canonical text, if that text, encoded, is JSON
  -- for `JSON.parse`, from the archive after any number of objects put in later.
  pub archive_json-read :
      (a : Archive) (v : Value) (time : Timestamp) {d : RawObjectDescriptor} {out later : Archive}
      {text : Text} {item : Value}
      → archive_json raw_bytes_hash valid_utf8 parse_json a v time ≡ ok (d, out)
      → canonical_json v ≡ ok text
      → parse_json (encode_utf8 text) ≡ some item
      → Grows out later
      → read_archived_json raw_bytes_hash valid_utf8 parse_json later d ≡ ok item
  unfolding archive_json
  archive_json-read a v time {d} {out} {text = text} e canonical is_json grows =
      let archived = rw (canonical, archive_json) at e in
      Archived-read a (encode_utf8 text) d
        (archive_bytes-Archived a (encode_utf8 text) time {d = d} {out = out} archived) grows
      ∙ rw is_json refl
