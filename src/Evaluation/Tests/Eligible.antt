-- ===== src/Evaluation/Tests/Eligible.antt =====
-- A concrete evaluation, and the theorem of the evaluation at it.
-- Code: packages/evaluation/src/index.ts.
use alpha_proof.Base.{◌≡◌, none, some, [], ◌∷◌, ok}
use alpha_proof.Accounting.State.{Provenance}
use alpha_proof.Evaluation.{
  EligibilityInput, EvaluationReceipt, NetworkProfile, OperationalStatus, EconomicStatus,
  StatisticalStatus, evaluate_eligibility,
}
use alpha_proof.Evaluation.Eligibility.{IsEvaluated, evaluate_eligibility-IsEvaluated}

abbrev input : EligibilityInput
input = record {
  experiment_id = 1;
  scenario_id = 2;
  policy_hash = 3;
  checkpoint_hash = 4;
  result_provenance = Provenance.forward_shadow;
  network_profile = NetworkProfile.ethereum_mainnet_forward;
  operational_status = OperationalStatus.compliant;
  economic_status = EconomicStatus.criteria_met;
  statistical_status = StatisticalStatus.criterion_met;
  statistical_method_version = some 1;
  dimension_reason_codes = 20 ∷ 11 ∷ 20 ∷ [];
  supersedes_hash = none;
}

evaluate_eligibility-IsEvaluated_example :
    (r : EvaluationReceipt) × (evaluate_eligibility input ≡ ok r) × IsEvaluated input r
evaluate_eligibility-IsEvaluated_example = evaluate_eligibility-IsEvaluated input
