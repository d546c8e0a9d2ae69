-- ===== src/Evaluation/Tests/Replays.antt =====
-- A run with its archive, and the bundle that it leaves.
-- Code: packages/evaluation/src/index.ts.
use alpha_proof.Base.{◌+◌, ◌≡◌, refl, true, some, List, [], ◌∷◌, all, length, ok}
use alpha_proof.Accounting.Check.Schema.{is_uint, parse_portfolio, portfolio_in_range}
use alpha_proof.Valuation.State.{Role}
use alpha_proof.Valuation.Tests.Items.{
  checkpoint_hasher, agent_input, reference_input, checkpoint-agent, checkpoint-cash,
  checkpoint-yield,
}
use alpha_proof.Valuation.Tests.Scenario.{scenario_input, checkpoint, create-checkpoint}
use alpha_proof.Evaluation.Replay.{
  RawObject, CheckpointReplayInputs, M4ReplayBundle, ReplayHasher, parse_replay_input,
  parse_replay_inputs, check_raw_objects, check_archive, replay_m4,
}
use alpha_proof.Evaluation.Replay.Recorded.{RunOf, recorded, replay_m4-agree, replay_m4-recorded}
use alpha_proof.Evaluation.Tests.Marks.{
  evaluation_hash, earlier_marks, evaluation, evaluate-checkpoint,
}

abbrev replay_hasher : ReplayHasher
replay_hasher = record {
  checkpoints = checkpoint_hasher;
  evaluation_hash = evaluation_hash;
  raw_bytes_hash = λ bytes. 96 + length bytes;
  objects_hash = λ objects. 300 + length objects;
  quote_hash = λ quotes. 400 + length quotes.object_keys;
}

abbrev objects : List RawObject
objects =
    record { object_key = 97; bytes = 1 ∷ [] } ∷ record { object_key = 98; bytes = 1 ∷ 2 ∷ [] } ∷ []

abbrev inputs : CheckpointReplayInputs
inputs = record {
  agent = agent_input;
  cash_reference = reference_input Role.cash_reference 4;
  conservative_yield_reference = reference_input Role.conservative_yield_reference 5;
}

abbrev bundle : M4ReplayBundle
bundle = recorded inputs earlier_marks objects checkpoint evaluation

inputs-fit : parse_replay_inputs (some inputs) ≡ ok tt
unfolding parse_replay_inputs parse_replay_input parse_portfolio portfolio_in_range
inputs-fit = refl

marks-fit : all is_uint earlier_marks ≡ true
marks-fit = refl

archive-fits : check_archive replay_hasher bundle ≡ ok tt
unfolding check_archive check_raw_objects
archive-fits = refl

run : RunOf checkpoint_hasher inputs scenario_input
run = record { agent = checkpoint-agent; cash = checkpoint-cash; yields = checkpoint-yield }

replay_m4-recorded_example : replay_m4 replay_hasher bundle ≡ ok (checkpoint, evaluation)
replay_m4-recorded_example =
    replay_m4-recorded replay_hasher inputs scenario_input earlier_marks objects run
      create-checkpoint evaluate-checkpoint inputs-fit marks-fit archive-fits

replay-bundle : replay_m4 replay_hasher bundle ≡ ok (checkpoint, evaluation)
replay-bundle =
    replay_m4-recorded replay_hasher inputs scenario_input earlier_marks objects run
      create-checkpoint evaluate-checkpoint inputs-fit marks-fit archive-fits

replay_m4-agree_example : (checkpoint ≡ checkpoint) × (evaluation ≡ evaluation)
replay_m4-agree_example =
    replay_m4-agree replay_hasher bundle bundle (λ same. refl) (λ same. refl) refl refl
      replay-bundle replay-bundle
