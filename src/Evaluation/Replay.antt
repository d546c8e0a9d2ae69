-- ===== src/Evaluation/Replay.antt =====
-- Replaying an archived bundle: its raw objects are checked against their content addresses, the
-- checkpoint is made again from its inputs, and it is evaluated again.
-- An object key is `raw/keccak256/` and a hash, by its schema, so it is modelled by the hash.
-- Code: packages/evaluation/src/index.ts (`replayM4`), packages/schemas/src/evaluation.ts.
pub mod Recorded
use alpha_proof.Base.{
  ℕ, Bool, true, not, ◌&&◌, Option, none, some, List, [], ◌∷◌, ◌++◌, map, all, any, length,
  includes, ◌==◌, ◌!=◌, archive_integrity, replay_mismatch, schema_rejected, Result, ok, ◌>>=◌,
  ◌>>◌, throw_if, for_each, new_set,
}
use alpha_proof.Accounting.State.{Ident, Hash}
use alpha_proof.Accounting.Check.Schema.{parse_portfolio, is_uint, is_positive_uint}
use alpha_proof.Accounting.Value.{PositionValuation, input_in_range}
use alpha_proof.Valuation.State.{
  AccrualInput, PortfolioCheckpointInput, CheckpointBody, ScenarioCheckpoint, CheckpointHasher,
}
use alpha_proof.Valuation.{
  ScenarioCheckpointInput, checkpoint_portfolio, create_scenario_checkpoint,
  parse_scenario_checkpoint,
}
use alpha_proof.Evaluation.Metrics.{
  EvaluationBody, ScenarioEvaluation, parse_scenario_evaluation, evaluate_scenario,
}

pub record RawObject : Type 0 where
  pub object_key : Hash
  pub bytes : List ℕ

pub record CheckpointReplayInputs : Type 0 where
  pub agent : PortfolioCheckpointInput
  pub cash_reference : PortfolioCheckpointInput
  pub conservative_yield_reference : PortfolioCheckpointInput

pub record M4ReplayBundle : Type 0 where
  pub checkpoint : CheckpointBody
  pub prior_agent_marks : List ℕ
  pub raw_objects : List RawObject
  pub checkpoint_inputs : Option CheckpointReplayInputs
  pub expected_checkpoint_hash : Hash
  pub expected_evaluation : ScenarioEvaluation

-- What `expectedQuoteHash` hashes.
pub record QuoteSet : Type 0 where
  pub scenario_id : Ident
  pub amount_usdc_minor : ℕ
  pub object_keys : List Hash

-- `rawBytesHash`, and `contentHash` at the types that the replay hashes.
pub record ReplayHasher : Type 0 where
  pub checkpoints : CheckpointHasher
  pub evaluation_hash : EvaluationBody → Hash
  pub raw_bytes_hash : List ℕ → Hash
  pub objects_hash : List RawObject → Hash
  pub quote_hash : QuoteSet → Hash

abbrev pub accrual_in_range : AccrualInput → Bool
accrual_in_range accrual =
    is_positive_uint accrual.next_index_numerator && is_positive_uint accrual.next_index_denominator

-- `CheckpointReplayPortfolioInput.parse`
unfoldable pub parse_replay_input : PortfolioCheckpointInput → Result (Unit {0})
parse_replay_input input = do
  portfolio ← parse_portfolio input.portfolio
  throw_if (not (all accrual_in_range input.accruals && all input_in_range input.valuations))
      schema_rejected

unfoldable pub parse_replay_inputs : Option CheckpointReplayInputs → Result (Unit {0})
parse_replay_inputs none = ok tt
parse_replay_inputs (some inputs) = do
  parse_replay_input inputs.agent
  parse_replay_input inputs.cash_reference
  parse_replay_input inputs.conservative_yield_reference

-- `M4ReplayBundle.parse`; a checkpoint without its hash has the checks of one with any hash.
unfoldable pub parse_bundle : M4ReplayBundle → Result M4ReplayBundle
parse_bundle bundle = do
  checkpoint ← parse_scenario_checkpoint (record { body = bundle.checkpoint; checkpoint_hash = 0 })
  throw_if (not (all is_uint bundle.prior_agent_marks)) schema_rejected
  parse_replay_inputs bundle.checkpoint_inputs
  evaluation ← parse_scenario_evaluation bundle.expected_evaluation
  ok bundle

abbrev pub key_differs : ReplayHasher → RawObject → Bool
key_differs hasher object = object.object_key != hasher.raw_bytes_hash object.bytes

unfoldable pub check_raw_objects : ReplayHasher → List RawObject → Result (Unit {0})
check_raw_objects hasher =
    for_each (λ object. throw_if (key_differs hasher object) archive_integrity)

abbrev pub quote_set : M4ReplayBundle → QuoteSet
quote_set bundle = record {
  scenario_id = bundle.checkpoint.scenario_id;
  amount_usdc_minor = bundle.checkpoint.agent.portfolio.initial_value_usdc_minor;
  object_keys = map (λ object. object.object_key) bundle.raw_objects;
}

abbrev pub sources_of_input : PortfolioCheckpointInput → List Hash
sources_of_input input =
    map (λ accrual. accrual.source_hash) input.accruals
    ++ map (λ valuation. valuation.source_hash) input.valuations

abbrev pub sources_of : Option CheckpointReplayInputs → List Hash
sources_of none = []
sources_of (some inputs) =
    sources_of_input inputs.agent
    ++ (sources_of_input inputs.cash_reference
        ++ sources_of_input inputs.conservative_yield_reference)

abbrev pub is_unarchived : M4ReplayBundle → Hash → Bool
is_unarchived bundle source =
    not (includes source (new_set [] (map (λ object. object.object_key) bundle.raw_objects)))

-- The guards of `replayM4` on the archive, in their order.
unfoldable pub check_archive : ReplayHasher → M4ReplayBundle → Result (Unit {0})
check_archive hasher bundle = do
  check_raw_objects hasher bundle.raw_objects
  throw_if
      (length bundle.raw_objects != 0
        && hasher.objects_hash bundle.raw_objects != bundle.checkpoint.observation_set_hash)
      replay_mismatch
  throw_if
      (length bundle.raw_objects != 0
        && hasher.quote_hash (quote_set bundle) != bundle.checkpoint.amount_quote_hash)
      replay_mismatch
  throw_if (any (is_unarchived bundle) (sources_of bundle.checkpoint_inputs)) archive_integrity

unfoldable pub remade_checkpoint :
    CheckpointHasher → CheckpointBody → Option CheckpointReplayInputs → Result ScenarioCheckpoint
remade_checkpoint hasher checkpoint none =
    parse_scenario_checkpoint
      (record { body = checkpoint; checkpoint_hash = hasher.checkpoint_hash checkpoint })
remade_checkpoint hasher checkpoint (some inputs) = do
  agent ← checkpoint_portfolio hasher checkpoint.checkpoint_id inputs.agent
  cash ← checkpoint_portfolio hasher checkpoint.checkpoint_id inputs.cash_reference
  yields ← checkpoint_portfolio hasher checkpoint.checkpoint_id inputs.conservative_yield_reference
  create_scenario_checkpoint hasher (record {
    checkpoint_id = checkpoint.checkpoint_id;
    sequence = checkpoint.sequence;
    checkpoint_at = checkpoint.checkpoint_at;
    observation_set_hash = checkpoint.observation_set_hash;
    amount_quote_hash = checkpoint.amount_quote_hash;
    agent = agent;
    cash_reference = cash;
    conservative_yield_reference = yields;
  })

unfoldable pub replay_m4 :
    ReplayHasher → M4ReplayBundle → Result (ScenarioCheckpoint × ScenarioEvaluation)
replay_m4 hasher input = do
  bundle ← parse_bundle input
  check_archive hasher bundle
  checkpoint ← remade_checkpoint hasher.checkpoints bundle.checkpoint bundle.checkpoint_inputs
  throw_if (checkpoint.checkpoint_hash != bundle.expected_checkpoint_hash) replay_mismatch
  evaluation ← evaluate_scenario hasher.evaluation_hash checkpoint bundle.prior_agent_marks
  throw_if (evaluation.evaluation_hash != bundle.expected_evaluation.evaluation_hash)
      replay_mismatch
  ok (checkpoint, evaluation)
