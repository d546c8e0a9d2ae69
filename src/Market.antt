-- ===== src/Market.antt =====
-- The content-addressed archive of raw objects, in memory and in files, and the freshness of
-- archived observations.
-- Code: packages/market-data/src/index.ts, packages/schemas/src/economic.ts
-- (`RawObjectDescriptor`, `ArchivedObservation`), packages/schemas/src/primitives.ts.
pub mod Observation
pub mod Store
pub mod Archived
pub mod Files
pub mod Fresh
mod Tests
use alpha_proof.Base.{
  ℕ, ◌+◌, ◌-◌, ◌*◌, ◌/◌, ◌%◌, Bool, true, false, not, ◌&&◌, ◌||◌, Option, none, some, List, [], ◌∷◌,
  ◌++◌, find, push, length, ltb, leb, ◌==◌, ◌!=◌, is_some, if◌then◌else◌, archive_integrity,
  data_unavailable, data_stale, schema_rejected, Result, ok, err, ◌>>=◌, ◌>>◌, throw_if, or_throw,
}
use alpha_proof.Accounting.State.{Ident, Hash, Timestamp, Provenance, provenance_eq}
use alpha_proof.Accounting.Check.Schema.{is_uint, is_positive_uint}
use alpha_proof.Canonical.{Text, Value, is_high, is_low, canonical_json}
use alpha_proof.Market.Store.{
  RawObjectDescriptor, Bytes, ObjectKey, key_eq, Stored, Archive, lookup, same_values, bytes_eq,
  put_beside, bytes_of, put_if_absent, get, path_of, write_new, compare_prior, after_write,
  file_put_if_absent, file_get,
}
use alpha_proof.Market.Observation.{
  BlockFinality, BlockRef, ArchivedObservation, SourceRef, is_finalized, block_finalized,
  block_in_range, is_content_key, observation_in_range, parse_observation,
}

-- The bytes of a code point beyond the first plane, from its two surrogates.
abbrev pub astral_bytes : ℕ → ℕ → Bytes
astral_bytes high low =
    let point = 65536 + (high - 55296) * 1024 + (low - 56320) in
    (240 + point / 262144)
    ∷ (128 + point / 4096 % 64)
    ∷ (128 + point / 64 % 64)
    ∷ (128 + point % 64)
    ∷ []

abbrev pub plane_bytes : ℕ → Bytes
plane_bytes unit =
    if ltb unit 128
    then unit ∷ []
    else if ltb unit 2048
    then (192 + unit / 64) ∷ (128 + unit % 64) ∷ []
    else (224 + unit / 4096) ∷ (128 + unit / 64 % 64) ∷ (128 + unit % 64) ∷ []

-- `TextEncoder`, on texts without lone surrogates.
unfoldable pub encode_utf8 : Text → Bytes
encode_utf8 [] = []
encode_utf8 (unit ∷ []) = plane_bytes unit
encode_utf8 (unit ∷ next ∷ units) =
    let paired = encode_utf8 units in
    let single = encode_utf8 (next ∷ units) in
    if is_high unit && is_low next
    then astral_bytes unit next ++ paired
    else plane_bytes unit ++ single

-- `rawBytesHash`, the test for UTF-8 by which the fatal `TextDecoder` throws, and `JSON.parse` of
-- what the lenient one decodes, which may throw, are functions. On valid UTF-8 the two decoders agree.
module _ (raw_bytes_hash : Bytes → Hash) (valid_utf8 : Bytes → Bool)
    (parse_json : Bytes → Option Value) where
  -- What both ways of archiving do with the bytes.
  unfoldable pub archive_bytes :
      Archive → Bytes → Timestamp → Result (RawObjectDescriptor × Archive)
  archive_bytes archive bytes captured_at =
      let object_hash = raw_bytes_hash bytes in
      put_if_absent archive (ObjectKey.content_key object_hash) bytes >>= λ stored. ok (
        record {
          object_hash = object_hash;
          object_key = ObjectKey.content_key object_hash;
          content_length_bytes = length bytes;
          captured_at = captured_at;
        },
        stored,
      )

  unfoldable pub archive_json : Archive → Value → Timestamp → Result (RawObjectDescriptor × Archive)
  archive_json archive item captured_at = do
    text ← canonical_json item
    archive_bytes archive (encode_utf8 text) captured_at

  unfoldable pub archive_raw_json_bytes :
      Archive → Bytes → Timestamp → Result (RawObjectDescriptor × Archive)
  archive_raw_json_bytes archive bytes captured_at = do
    throw_if (not (valid_utf8 bytes && is_some (parse_json bytes))) archive_integrity
    archive_bytes archive bytes captured_at

  unfoldable pub read_archived_json : Archive → RawObjectDescriptor → Result Value
  read_archived_json archive descriptor = do
    bytes ← or_throw (get archive descriptor.object_key) data_unavailable
    throw_if (length bytes != descriptor.content_length_bytes) archive_integrity
    throw_if (raw_bytes_hash bytes != descriptor.object_hash) archive_integrity
    or_throw (parse_json bytes) archive_integrity

unfoldable pub create_observation : ArchivedObservation → Result ArchivedObservation
create_observation input = parse_observation input

unfoldable pub require_fresh : ArchivedObservation → Timestamp → Result ArchivedObservation
require_fresh observation evaluation_time = do
  parsed ← parse_observation observation
  throw_if (ltb evaluation_time parsed.observed_at || leb parsed.expires_at evaluation_time)
      data_stale
  ok parsed

-- The schema of a reference asks no more than that of the observation.
unfoldable pub to_source_ref : ArchivedObservation → Timestamp → Result SourceRef
to_source_ref observation evaluation_time = do
  fresh ← require_fresh observation evaluation_time
  ok (record {
    source_id = fresh.source_id;
    source_version = fresh.source_version;
    requested_at = fresh.requested_at;
    observed_at = fresh.observed_at;
    block = fresh.block;
    raw_object_hash = fresh.raw_object.object_hash;
    parser_version = fresh.parser_version;
    adapter_version = fresh.adapter_version;
    result_provenance = fresh.result_provenance;
  })
