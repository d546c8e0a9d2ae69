-- ===== src/Market/Store.antt =====
-- The archive in memory and in files.
-- Code: packages/market-data/src/index.ts (`MemoryObjectArchive`, `FileObjectArchive`).
use alpha_proof.Base.{
  ℕ, Bool, true, false, not, ◌&&◌, Option, none, some, List, [], ◌∷◌, find, push, length, ◌==◌,
  is_some, if◌then◌else◌, archive_integrity, data_unavailable, Result, ok, err, ◌>>=◌, ◌>>◌,
  throw_if, or_throw,
}
use alpha_proof.Accounting.State.{Ident, Hash, Timestamp}

abbrev pub Bytes : Type 0
Bytes = List ℕ

-- `raw/keccak256/` and a hash, or any other text.
pub data ObjectKey : Type 0 where
  content_key : Hash → ObjectKey
  other_key : Ident → ObjectKey

abbrev pub key_eq : ObjectKey → ObjectKey → Bool
key_eq (ObjectKey.content_key a) (ObjectKey.content_key b) = a == b
key_eq (ObjectKey.other_key a) (ObjectKey.other_key b) = a == b
key_eq _ _ = false

pub record Stored : Type 0 where
  pub key : ObjectKey
  pub bytes : Bytes

-- A map from keys to bytes: the objects in memory, or the files below a directory.
abbrev pub Archive : Type 0
Archive = List Stored

abbrev pub lookup : Archive → ObjectKey → Option Stored
lookup archive key = find (λ stored. key_eq stored.key key) archive

abbrev pub same_values : Bytes → Bytes → Bool
same_values [] b = true
same_values (x ∷ xs) [] = false
same_values (x ∷ xs) (y ∷ ys) = x == y && same_values xs ys

-- `equal`
unfoldable pub bytes_eq : Bytes → Bytes → Bool
bytes_eq a b = length a == length b && same_values a b

-- With the object that is there already, if any.
abbrev pub put_beside : Archive → ObjectKey → Bytes → Option Stored → Result Archive
put_beside archive key bytes none = ok (push archive (record { key = key; bytes = bytes }))
put_beside archive key bytes (some prior) =
    throw_if (not (bytes_eq prior.bytes bytes)) archive_integrity >> ok archive

abbrev pub bytes_of : Option Stored → Option Bytes
bytes_of none = none
bytes_of (some stored) = some stored.bytes

-- `MemoryObjectArchive`
unfoldable pub put_if_absent : Archive → ObjectKey → Bytes → Result Archive
put_if_absent archive key bytes = put_beside archive key bytes (lookup archive key)

unfoldable pub get : Archive → ObjectKey → Option Bytes
get archive key = bytes_of (lookup archive key)

-- `FileObjectArchive.path`: the only paths are those of content keys.
abbrev pub path_of : ObjectKey → Result ObjectKey
path_of (ObjectKey.content_key hash) = ok (ObjectKey.content_key hash)
path_of (ObjectKey.other_key text) = err archive_integrity

-- `writeFile` with the flag `wx`: it fails with EEXIST, here `none`, if the file is there.
abbrev pub write_new : Archive → ObjectKey → Bytes → Option Archive
write_new files path bytes =
    if is_some (lookup files path)
    then none
    else some (push files (record { key = path; bytes = bytes }))

-- After EEXIST: the file is read and compared.
abbrev pub compare_prior : Archive → ObjectKey → Bytes → Result Archive
compare_prior files path bytes = do
  prior ← or_throw (get files path) data_unavailable
  throw_if (not (bytes_eq prior bytes)) archive_integrity
  ok files

abbrev pub after_write : Archive → ObjectKey → Bytes → Option Archive → Result Archive
after_write files path bytes none = compare_prior files path bytes
after_write files path bytes (some written) = ok written

-- `FileObjectArchive`
unfoldable pub file_put_if_absent : Archive → ObjectKey → Bytes → Result Archive
file_put_if_absent files key bytes = do
  path ← path_of key
  after_write files path bytes (write_new files path bytes)

unfoldable pub file_get : Archive → ObjectKey → Result (Option Bytes)
file_get files key = do path ← path_of key; ok (get files path)

pub record RawObjectDescriptor : Type 0 where
  pub object_hash : Hash
  pub object_key : ObjectKey
  pub content_length_bytes : ℕ
  pub captured_at : Timestamp
