-- ===== src/Market/Tests.antt =====
-- An object that is archived, with another after it; and an observation in its validity.
-- Code: packages/market-data/src/index.ts.
use alpha_proof.Base.{
  ◌≡◌, refl, none, some, Option, Bool, all, ltb, [], ◌∷◌, total_by, if◌then◌else◌, ok,
}
use alpha_proof.Accounting.State.{Hash, Provenance}
use alpha_proof.Canonical.{Value, encode, canonical_json}
use alpha_proof.Market.Store.{Bytes, ObjectKey, Archive, put_if_absent, bytes_eq}
use alpha_proof.Market.Observation.{ArchivedObservation, parse_observation}
use alpha_proof.Market.{
  encode_utf8, archive_bytes, archive_json, archive_raw_json_bytes, read_archived_json,
  require_fresh,
}
use alpha_proof.Market.Store.{RawObjectDescriptor}
use alpha_proof.Market.Archived.{Grows, archive_raw_json_bytes-read, archive_json-read}

abbrev hash : Bytes → Hash
hash = total_by (λ byte. byte)

abbrev null_bytes : Bytes
null_bytes = 110 ∷ 117 ∷ 108 ∷ 108 ∷ []

-- Knows ASCII only.
valid : Bytes → Bool
valid bytes = all (λ byte. ltb byte 128) bytes

-- Knows `null` only.
parse : Bytes → Option Value
parse bytes = if bytes_eq bytes null_bytes then some Value.null else none

abbrev descriptor : RawObjectDescriptor
descriptor = record {
  object_hash = 443;
  object_key = ObjectKey.content_key 443;
  content_length_bytes = 4;
  captured_at = 5;
}

abbrev archived : Archive
archived = record { key = ObjectKey.content_key 443; bytes = null_bytes } ∷ []

abbrev later : Archive
later =
    record { key = ObjectKey.content_key 443; bytes = null_bytes }
    ∷ record { key = ObjectKey.content_key 3; bytes = 1 ∷ 2 ∷ [] }
    ∷ []

archive-null : archive_raw_json_bytes hash valid parse [] null_bytes 5 ≡ ok (descriptor, archived)
unfolding archive_raw_json_bytes archive_bytes put_if_absent valid parse bytes_eq
archive-null = refl

archive-null_value : archive_json hash valid parse [] Value.null 5 ≡ ok (descriptor, archived)
unfolding archive_json archive_bytes put_if_absent encode_utf8 canonical_json encode
archive-null_value = refl

canonical-null : canonical_json Value.null ≡ ok null_bytes
unfolding canonical_json encode
canonical-null = refl

parse-null : parse (encode_utf8 null_bytes) ≡ some Value.null
unfolding parse bytes_eq encode_utf8
parse-null = refl

put-later : put_if_absent archived (ObjectKey.content_key 3) (1 ∷ 2 ∷ []) ≡ ok later
unfolding put_if_absent
put-later = refl

later-Grows : Grows archived later
later-Grows = Grows.grown (ObjectKey.content_key 3) (1 ∷ 2 ∷ []) put-later Grows.unchanged

archive_raw_json_bytes-read_example :
    (item : Value) × (parse null_bytes ≡ some item)
    × (read_archived_json hash valid parse later descriptor ≡ ok item)
archive_raw_json_bytes-read_example =
    archive_raw_json_bytes-read hash valid parse [] null_bytes 5 archive-null later-Grows

archive_json-read_example : read_archived_json hash valid parse later descriptor ≡ ok Value.null
archive_json-read_example =
    archive_json-read hash valid parse [] Value.null 5 archive-null_value canonical-null parse-null
      later-Grows

abbrev observation : ArchivedObservation
observation = record {
  observation_id = 1;
  source_id = 2;
  source_version = 3;
  parser_version = 4;
  adapter_version = 5;
  requested_at = 6;
  observed_at = 7;
  expires_at = 20;
  block = none;
  raw_object = descriptor;
  result_provenance = Provenance.historical_replay;
}

fresh-observation : require_fresh observation 19 ≡ ok observation
unfolding require_fresh parse_observation
fresh-observation = refl
