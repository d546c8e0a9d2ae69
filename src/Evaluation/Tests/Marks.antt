-- ===== src/Evaluation/Tests/Marks.antt =====
-- The evaluation of a scenario's checkpoint.
-- Code: packages/evaluation/src/index.ts.
use alpha_proof.Base.{ℕ, ◌+◌, ◌≡◌, refl, some, List, [], ◌∷◌, ok, ◌+ℤ◌, ◌-ℤ◌, ◌*ℤ◌, ◌/ℤ◌}
use alpha_proof.Accounting.State.{Hash}
use alpha_proof.Accounting.Check.Schema.{parse_portfolio, portfolio_in_range}
use alpha_proof.Valuation.{
  portfolio_position_mark, parse_scenario_checkpoint, parse_checkpoint_portfolio,
}
use alpha_proof.Valuation.Tests.Items.{checkpoint_hasher}
use alpha_proof.Valuation.Tests.Scenario.{scenario_input, checkpoint, create-checkpoint}
use alpha_proof.Evaluation.Metrics.{
  EvaluationBody, ScenarioEvaluation, signed_bps, peak_of, drawdown_of, metrics, evaluation_body,
  metrics_in_range, parse_scenario_evaluation, evaluate_scenario,
}
use alpha_proof.Evaluation.Metrics.Drawdown.{IsDrawdown, drawdown_of-IsDrawdown}
use alpha_proof.Evaluation.Metrics.Compared.{ComparesProfits, evaluate_scenario-ComparesProfits}

abbrev pub evaluation_hash : EvaluationBody → Hash
evaluation_hash body = body.checkpoint_id + 800

-- A mark of 1010, after one of 1100.
abbrev pub earlier_marks : List ℕ
earlier_marks = 1100 ∷ 900 ∷ []

abbrev pub evaluation : ScenarioEvaluation
evaluation = record { body = evaluation_body checkpoint earlier_marks; evaluation_hash = 1300 }

pub evaluate-checkpoint : evaluate_scenario evaluation_hash checkpoint earlier_marks ≡ ok evaluation
unfolding evaluate_scenario evaluation_body metrics signed_bps peak_of drawdown_of metrics_in_range
    parse_scenario_evaluation parse_scenario_checkpoint parse_checkpoint_portfolio parse_portfolio
    portfolio_in_range portfolio_position_mark ◌+ℤ◌ ◌-ℤ◌ ◌*ℤ◌ ◌/ℤ◌
evaluate-checkpoint = refl

drawdown-marks : drawdown_of 1010 earlier_marks ≡ some 818
unfolding drawdown_of peak_of
drawdown-marks = refl

drawdown_of-IsDrawdown_example : IsDrawdown 1010 earlier_marks 818
drawdown_of-IsDrawdown_example = drawdown_of-IsDrawdown 1010 earlier_marks drawdown-marks

evaluate_scenario-ComparesProfits_example :
    ComparesProfits (evaluation_body checkpoint earlier_marks)
evaluate_scenario-ComparesProfits_example =
    evaluate_scenario-ComparesProfits checkpoint_hasher evaluation_hash scenario_input earlier_marks
      create-checkpoint evaluate-checkpoint
