-- ===== src/Evaluation/Metrics/Compared.antt =====
-- What an evaluation compares: the agent with its references, from the same capital.
-- Code: packages/evaluation/src/index.ts (`evaluateScenario`).
use alpha_proof.Base.{
  ℕ, ◌≡◌, refl, sym, ap, subst, ◌∙◌, Option, some, none, List, ok, ok-injective, throw_if,
  schema_rejected, >>=-elim, >>-elim, pos, ◌-ℤ◌, -ℤ_parts, eq_of_parts, ◌&&◌, is_some,
  if◌then◌else◌, arith,
}
use alpha_proof.Accounting.State.{Hash}
use alpha_proof.Valuation.State.{ScenarioCheckpoint, CheckpointBody, CheckpointHasher}
use alpha_proof.Valuation.{
  ScenarioCheckpointInput, parse_scenario_checkpoint, create_scenario_checkpoint, body_of,
}
use alpha_proof.Valuation.Comparable.{
  IsComparable, create_scenario_checkpoint_iff, parse_scenario_checkpoint-same,
}
use alpha_proof.Evaluation.Metrics.{
  EvaluationBody, ScenarioEvaluation, metrics, evaluation_body, parse_scenario_evaluation,
  evaluate_scenario, difference, amount, profit,
}

pub parse_scenario_evaluation-same :
    (e : ScenarioEvaluation) {out : ScenarioEvaluation}
    → parse_scenario_evaluation e ≡ ok out
    → e ≡ out
unfolding parse_scenario_evaluation
parse_scenario_evaluation-same e h =
    >>-elim (throw_if _ schema_rejected) _ h λ g rest. ok-injective rest

-- A returned evaluation is of the checkpoint that was given.
pub evaluate_scenario-of :
    (hash : EvaluationBody → Hash) (c : ScenarioCheckpoint) (prior : List ℕ)
    {out : ScenarioEvaluation}
    → evaluate_scenario hash c prior ≡ ok out
    → (out ≡ record {
      body = evaluation_body c prior;
      evaluation_hash = hash (evaluation_body c prior);
    })
      × (parse_scenario_checkpoint c ≡ ok c)
unfolding evaluate_scenario
evaluate_scenario-of hash c prior {out} e =
    >>=-elim (parse_scenario_checkpoint c) _ e λ p parsed rest.
      let same = parse_scenario_checkpoint-same c parsed in
      (
        sym (
            parse_scenario_evaluation-same _ (
              subst
                (λ x.
                  parse_scenario_evaluation (record {
                    body = evaluation_body x prior;
                    evaluation_hash = hash (evaluation_body x prior);
                  })
                  ≡ ok out)
                (sym same) rest)),
        parsed ∙ ap ok (sym same),
      )

-- The gain over a reference is the difference of the profits, since the capital is the same.
profit_difference :
    (a b i j : ℕ) → i ≡ j → (pos a -ℤ pos b) ≡ ((pos a -ℤ pos i) -ℤ (pos b -ℤ pos j))
profit_difference a b i j same = eq_of_parts _ _ (
    omega (
      arith,
      same,
      -ℤ_parts (pos a) (pos b),
      -ℤ_parts (pos a) (pos i),
      -ℤ_parts (pos b) (pos j),
      -ℤ_parts (pos a -ℤ pos i) (pos b -ℤ pos j),
    ))

gain-profit :
    (x y : Option ℕ) (i j : ℕ)
    → i ≡ j
    → difference (amount x) (amount y) ≡ difference (profit x i) (profit y j)
gain-profit none y i j same = refl
gain-profit (some a) none i j same = refl
gain-profit (some a) (some b) i j same = ap some (profit_difference a b i j same)

-- What is said of the evaluation of a checkpoint.
pub record ComparesProfits (e : EvaluationBody) : Type 0 where
  pub same_capital :
      (e.cash_reference.initial_value_usdc_minor ≡ e.agent.initial_value_usdc_minor)
      × (e.conservative_yield_reference.initial_value_usdc_minor ≡ e.agent.initial_value_usdc_minor)
  pub vs_cash :
      e.difference_vs_cash_mark
      ≡ difference e.agent.pnl_mark_usdc_minor e.cash_reference.pnl_mark_usdc_minor
  pub vs_yield : e.difference_vs_yield_mark ≡ (
      if e.yield_comparison_available
      then difference e.agent.pnl_mark_usdc_minor e.conservative_yield_reference.pnl_mark_usdc_minor
      else none)

body-ComparesProfits :
    (input : ScenarioCheckpointInput) (c : ScenarioCheckpoint) (prior : List ℕ)
    → IsComparable input
    → c.body ≡ body_of input
    → ComparesProfits (evaluation_body c prior)
unfolding evaluation_body metrics
body-ComparesProfits input c prior fair body =
    let (cash, yields) = fair.capital in
    let same =
      (ap (λ (b : CheckpointBody). b.cash_reference.portfolio.initial_value_usdc_minor) body
        ∙ cash
        ∙ ap (λ (b : CheckpointBody). b.agent.portfolio.initial_value_usdc_minor) (sym body)) in
    let same_yield =
      (ap
          (λ (b : CheckpointBody).
            b.conservative_yield_reference.portfolio.initial_value_usdc_minor)
          body
        ∙ yields
        ∙ ap (λ (b : CheckpointBody). b.agent.portfolio.initial_value_usdc_minor) (sym body)) in
    record {
      same_capital = (same, same_yield);
      vs_cash =
          gain-profit c.body.agent.valuation.mark_value_usdc_minor
            c.body.cash_reference.valuation.mark_value_usdc_minor _ _ (sym same);
      vs_yield =
          ap
            (λ x.
              if (c.body.conservative_yield_reference.comparison_available
                && is_some c.body.conservative_yield_reference.valuation.mark_value_usdc_minor)
              then x
              else none)
            (gain-profit c.body.agent.valuation.mark_value_usdc_minor
              c.body.conservative_yield_reference.valuation.mark_value_usdc_minor _ _
              (sym same_yield));
    }

-- The evaluation of a checkpoint that was created compares portfolios of the same capital, so that
-- its differences of marks, from the cash reference and, where it is available, from the yield
-- reference, are the differences of the profits.
pub evaluate_scenario-ComparesProfits :
    (h : CheckpointHasher) (hash : EvaluationBody → Hash) (input : ScenarioCheckpointInput)
    (prior : List ℕ) {c : ScenarioCheckpoint} {e : ScenarioEvaluation}
    → create_scenario_checkpoint h input ≡ ok c
    → evaluate_scenario hash c prior ≡ ok e
    → ComparesProfits e.body
evaluate_scenario-ComparesProfits h hash input prior {c} created evaluated =
    let (fair, made, parsed) = (create_scenario_checkpoint_iff h input c).0 created in
    let (result, _) = evaluate_scenario-of hash c prior evaluated in
    subst ComparesProfits (ap (λ (x : ScenarioEvaluation). x.body) (sym result))
      (body-ComparesProfits input c prior fair (ap (λ (x : ScenarioCheckpoint). x.body) made))
