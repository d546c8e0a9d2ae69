-- ===== src/Market/Observation.antt =====
-- Archived observations and references to their sources.
-- Code: packages/schemas/src/economic.ts, packages/schemas/src/primitives.ts.
use alpha_proof.Base.{
  ℕ, Bool, true, false, not, ◌&&◌, Option, none, some, ltb, leb, schema_rejected, Result, ok, ◌>>◌,
  throw_if,
}
use alpha_proof.Accounting.State.{Ident, Hash, Timestamp, Provenance, provenance_eq}
use alpha_proof.Accounting.Check.Schema.{is_uint, is_positive_uint}
use alpha_proof.Market.Store.{ObjectKey, RawObjectDescriptor}
use alpha_proof.Market.Store.{ObjectKey}

pub data BlockFinality : Type 0 where
  provisional finalized invalidated : BlockFinality

pub record BlockRef : Type 0 where
  pub network_id : Ident
  pub chain_id : ℕ
  pub number : ℕ
  pub hash : Hash
  pub timestamp : Timestamp
  pub finality : BlockFinality

-- Versions are numbered.
pub record ArchivedObservation : Type 0 where
  pub observation_id : Ident
  pub source_id : Ident
  pub source_version : ℕ
  pub parser_version : ℕ
  pub adapter_version : ℕ
  pub requested_at : Timestamp
  pub observed_at : Timestamp
  pub expires_at : Timestamp
  pub block : Option BlockRef
  pub raw_object : RawObjectDescriptor
  pub result_provenance : Provenance

-- The literal `FRESH` is left out.
pub record SourceRef : Type 0 where
  pub source_id : Ident
  pub source_version : ℕ
  pub requested_at : Timestamp
  pub observed_at : Timestamp
  pub block : Option BlockRef
  pub raw_object_hash : Hash
  pub parser_version : ℕ
  pub adapter_version : ℕ
  pub result_provenance : Provenance

abbrev pub is_finalized : BlockFinality → Bool
is_finalized BlockFinality.finalized = true
is_finalized _ = false

abbrev pub block_finalized : Option BlockRef → Bool
block_finalized none = false
block_finalized (some block) = is_finalized block.finality

abbrev pub block_in_range : Option BlockRef → Bool
block_in_range none = true
block_in_range (some block) = is_positive_uint block.chain_id && is_uint block.number

abbrev pub is_content_key : ObjectKey → Bool
is_content_key (ObjectKey.content_key _) = true
is_content_key (ObjectKey.other_key _) = false

abbrev pub observation_in_range : ArchivedObservation → Bool
observation_in_range value =
    block_in_range value.block
    && is_content_key value.raw_object.object_key
    && is_positive_uint value.raw_object.content_length_bytes

-- `ArchivedObservation.parse`
unfoldable pub parse_observation : ArchivedObservation → Result ArchivedObservation
parse_observation value = do
  throw_if (not (observation_in_range value)) schema_rejected
  throw_if (ltb value.observed_at value.requested_at) schema_rejected
  throw_if (leb value.expires_at value.observed_at) schema_rejected
  throw_if
      (provenance_eq value.result_provenance Provenance.forward_shadow
        && not (block_finalized value.block))
      schema_rejected
  ok value
