-- ===== src/Evaluation/Metrics.antt =====
-- The descriptive metrics of a checkpoint's portfolios, and the evaluation of a scenario by them.
-- Code: packages/evaluation/src/index.ts (`metrics` to `evaluateScenario`),
-- packages/schemas/src/evaluation.ts.
pub mod Drawdown
pub mod Compared
use alpha_proof.Base.{
  ℕ, ◌+◌, ◌-◌, ◌*◌, ◌/◌, Bool, true, false, not, ◌&&◌, Option, none, some, List, [], ◌∷◌, all, ltb,
  ◌==◌, is_some, if◌then◌else◌, schema_rejected, Result, ok, ◌>>=◌, ◌>>◌, throw_if, ℤ, pos, negsuc,
  ◌-ℤ◌, ◌*ℤ◌, ◌/ℤ◌,
}
use alpha_proof.Accounting.State.{Ident, Hash, Timestamp, Provenance}
use alpha_proof.Accounting.Books.{cost_total}
use alpha_proof.Accounting.Check.Schema.{is_uint, is_positive_uint, is_int}
use alpha_proof.Accounting.Value.{DataQuality, ReasonCode, opt_is_uint}
use alpha_proof.Valuation.State.{CheckpointPortfolio, ScenarioCheckpoint, CheckpointHasher}
use alpha_proof.Valuation.{parse_scenario_checkpoint, portfolio_position_mark}
use alpha_proof.Evaluation.{Reason, provenance_reason, automatic_funding_disabled}

pub record PortfolioMetrics : Type 0 where
  pub initial_value_usdc_minor : ℕ
  pub mark_value_usdc_minor : Option ℕ
  pub liquidation_value_usdc_minor : Option ℕ
  pub pnl_mark_usdc_minor : Option ℤ
  pub return_mark_bps : Option ℤ
  pub available_usdc_minor : ℕ
  pub invested_mark_usdc_minor : Option ℤ
  pub reserved_usdc_minor : ℕ
  pub in_transit_usdc_minor : ℕ
  pub blocked_value_usdc_minor : Option ℕ
  pub cumulative_costs_usdc_minor : ℕ
  pub drawdown_mark_bps : Option ℕ
  pub data_quality : DataQuality
  pub reason_codes : List ReasonCode

-- An evaluation without its hash. The literal fields are left out.
pub record EvaluationBody : Type 0 where
  pub checkpoint_id : Ident
  pub experiment_id : Ident
  pub scenario_id : Ident
  pub checkpoint_at : Timestamp
  pub result_provenance : Provenance
  pub agent : PortfolioMetrics
  pub cash_reference : PortfolioMetrics
  pub conservative_yield_reference : PortfolioMetrics
  pub difference_vs_cash_mark : Option ℤ
  pub difference_vs_yield_mark : Option ℤ
  pub excess_return_vs_cash_bps : Option ℤ
  pub excess_return_vs_yield_bps : Option ℤ
  pub yield_comparison_available : Bool
  pub eligibility_reason_codes : List Reason

pub record ScenarioEvaluation : Type 0 where
  pub body : EvaluationBody
  pub open body use *
  pub evaluation_hash : Hash

-- The schema bounds the initial value below by 1, so the divisor is not 0.
unfoldable pub signed_bps : ℕ → ℕ → ℤ
signed_bps value initial = (pos value -ℤ pos initial) *ℤ 10000 /ℤ initial

abbrev pub max_of : ℕ → ℕ → ℕ
max_of a b = if ltb b a then a else b

-- `[mark, ...priorMarks].reduce((a, b) => a > b ? a : b)`
unfoldable pub peak_of : ℕ → List ℕ → ℕ
peak_of peak [] = peak
peak_of peak (mark ∷ marks) = peak_of (max_of peak mark) marks

-- The peak is not below the mark, so the difference is not truncated.
unfoldable pub drawdown_of : ℕ → List ℕ → Option ℕ
drawdown_of mark prior_marks =
    let peak = peak_of mark prior_marks in
    if peak == 0 then none else some ((peak - mark) * 10000 / peak)

abbrev pub profit : Option ℕ → ℕ → Option ℤ
profit none initial = none
profit (some mark) initial = some (pos mark -ℤ pos initial)

unfoldable pub metrics : CheckpointPortfolio → List ℕ → PortfolioMetrics
metrics item prior_marks =
    let initial = item.portfolio.initial_value_usdc_minor in
    let valuation = item.valuation in
    let mark = valuation.mark_value_usdc_minor in
    record {
      initial_value_usdc_minor = initial;
      mark_value_usdc_minor = mark;
      liquidation_value_usdc_minor = valuation.liquidation_value_usdc_minor;
      pnl_mark_usdc_minor = profit mark initial;
      return_mark_bps = elim mark [ none ↦ none | some m ↦ some (signed_bps m initial) ];
      available_usdc_minor = valuation.available_usdc_minor;
      invested_mark_usdc_minor = portfolio_position_mark item;
      reserved_usdc_minor = valuation.reserved_usdc_minor;
      in_transit_usdc_minor = valuation.in_transit_usdc_minor;
      blocked_value_usdc_minor = valuation.blocked_value_usdc_minor;
      cumulative_costs_usdc_minor = cost_total item.portfolio.recognized_costs;
      drawdown_mark_bps = elim mark [ none ↦ none | some m ↦ drawdown_of m prior_marks ];
      data_quality = valuation.data_quality;
      reason_codes = valuation.reason_codes;
    }

-- A difference of two numbers that may be absent.
abbrev pub difference : Option ℤ → Option ℤ → Option ℤ
difference none right = none
difference (some a) none = none
difference (some a) (some b) = some (a -ℤ b)

abbrev pub amount : Option ℕ → Option ℤ
amount none = none
amount (some n) = some (pos n)

-- The evaluation of a parsed checkpoint.
unfoldable pub evaluation_body : ScenarioCheckpoint → List ℕ → EvaluationBody
evaluation_body checkpoint prior_marks =
    let agent = metrics checkpoint.body.agent prior_marks in
    let cash = metrics checkpoint.body.cash_reference [] in
    let conservative = metrics checkpoint.body.conservative_yield_reference [] in
    let yield_available =
      checkpoint.body.conservative_yield_reference.comparison_available
      && is_some conservative.mark_value_usdc_minor in
    record {
      checkpoint_id = checkpoint.body.checkpoint_id;
      experiment_id = checkpoint.body.experiment_id;
      scenario_id = checkpoint.body.scenario_id;
      checkpoint_at = checkpoint.body.checkpoint_at;
      result_provenance = checkpoint.body.result_provenance;
      agent = agent;
      cash_reference = cash;
      conservative_yield_reference = conservative;
      difference_vs_cash_mark =
          difference (amount agent.mark_value_usdc_minor) (amount cash.mark_value_usdc_minor);
      difference_vs_yield_mark =
          if yield_available
          then difference (amount agent.mark_value_usdc_minor)
              (amount conservative.mark_value_usdc_minor)
          else none;
      excess_return_vs_cash_bps = difference agent.return_mark_bps cash.return_mark_bps;
      excess_return_vs_yield_bps =
          if yield_available
          then difference agent.return_mark_bps conservative.return_mark_bps
          else none;
      yield_comparison_available = yield_available;
      eligibility_reason_codes =
          provenance_reason checkpoint.body.result_provenance ∷ automatic_funding_disabled ∷ [];
    }

abbrev pub opt_is_int : Option ℤ → Bool
opt_is_int none = true
opt_is_int (some value) = is_int value

-- A text without a sign.
abbrev pub opt_is_natural : Option ℤ → Bool
opt_is_natural none = true
opt_is_natural (some (pos n)) = is_uint n
opt_is_natural (some (negsuc n)) = false

unfoldable pub metrics_in_range : PortfolioMetrics → Bool
metrics_in_range item =
    is_positive_uint item.initial_value_usdc_minor
    && opt_is_uint item.mark_value_usdc_minor
    && opt_is_uint item.liquidation_value_usdc_minor
    && opt_is_int item.pnl_mark_usdc_minor
    && opt_is_int item.return_mark_bps
    && is_uint item.available_usdc_minor
    && opt_is_natural item.invested_mark_usdc_minor
    && is_uint item.reserved_usdc_minor
    && is_uint item.in_transit_usdc_minor
    && opt_is_uint item.blocked_value_usdc_minor
    && is_uint item.cumulative_costs_usdc_minor
    && opt_is_uint item.drawdown_mark_bps

-- `ScenarioEvaluation.parse`
unfoldable pub parse_scenario_evaluation : ScenarioEvaluation → Result ScenarioEvaluation
parse_scenario_evaluation evaluation = do
  throw_if
      (not (
        metrics_in_range evaluation.body.agent
        && metrics_in_range evaluation.body.cash_reference
        && metrics_in_range evaluation.body.conservative_yield_reference
        && opt_is_int evaluation.body.difference_vs_cash_mark
        && opt_is_int evaluation.body.difference_vs_yield_mark
        && opt_is_int evaluation.body.excess_return_vs_cash_bps
        && opt_is_int evaluation.body.excess_return_vs_yield_bps))
      schema_rejected
  ok evaluation

-- `contentHash` of an evaluation is `evaluation_hash`.
unfoldable pub evaluate_scenario :
    (EvaluationBody → Hash) → ScenarioCheckpoint → List ℕ → Result ScenarioEvaluation
evaluate_scenario evaluation_hash checkpoint_input prior_marks = do
  checkpoint ← parse_scenario_checkpoint checkpoint_input
  parse_scenario_evaluation (record {
    body = evaluation_body checkpoint prior_marks;
    evaluation_hash = evaluation_hash (evaluation_body checkpoint prior_marks);
  })
