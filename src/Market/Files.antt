-- ===== src/Market/Files.antt =====
-- The archive in files beside the one in memory, on content keys and on others.
-- Code: packages/market-data/src/index.ts (`FileObjectArchive`, `MemoryObjectArchive`).
use alpha_proof.Base.{◌≡◌, refl, some, none, inl, inr, Option-cases, ok, err, archive_integrity}
use alpha_proof.Accounting.State.{Ident, Hash}
use alpha_proof.Market.Store.{
  Bytes, ObjectKey, Stored, Archive, lookup, put_if_absent, get, compare_prior, file_put_if_absent,
  file_get,
}
use alpha_proof.Market.Archived.{lookup-get}

file_put-absent :
    (a : Archive) (h : Hash) (b : Bytes)
    → lookup a (ObjectKey.content_key h) ≡ none
    → file_put_if_absent a (ObjectKey.content_key h) b ≡ put_if_absent a (ObjectKey.content_key h) b
unfolding file_put_if_absent put_if_absent
file_put-absent a h b absent = rw absent refl

file_put-present :
    (a : Archive) (h : Hash) (b : Bytes) (s : Stored)
    → lookup a (ObjectKey.content_key h) ≡ some s
    → file_put_if_absent a (ObjectKey.content_key h) b ≡ put_if_absent a (ObjectKey.content_key h) b
unfolding file_put_if_absent put_if_absent
file_put-present a h b s present =
    rw (present, compare_prior, lookup-get a (ObjectKey.content_key h) present) refl

-- On a content key the file archive puts and gets as the archive in memory, on the same objects,
-- with the same result or error; on any other key it refuses both.
pub file_put_if_absent-put_if_absent :
    (a : Archive) (h : Hash) (b : Bytes) (other : Ident)
    → (file_put_if_absent a (ObjectKey.content_key h) b
        ≡ put_if_absent a (ObjectKey.content_key h) b)
      × (file_get a (ObjectKey.content_key h) ≡ ok (get a (ObjectKey.content_key h)))
      × (file_put_if_absent a (ObjectKey.other_key other) b ≡ err archive_integrity)
      × (file_get a (ObjectKey.other_key other) ≡ err archive_integrity)
unfolding file_put_if_absent file_get
file_put_if_absent-put_if_absent a h b other = (
  (elim (Option-cases (lookup a (ObjectKey.content_key h))) [
    | inl absent ↦ file_put-absent a h b absent
    | inr (s, present) ↦ file_put-present a h b s present
  ]),
  refl,
  refl,
  refl,
)
