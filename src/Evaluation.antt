-- ===== src/Evaluation.antt =====
-- Whether a scenario's result is eligible under the policy, and the checks of the receipt's schema.
-- Code: packages/evaluation/src/index.ts (`evaluateEligibility`),
-- packages/schemas/src/objects.ts (`EvaluationReceipt`).
pub mod Eligibility
pub mod Metrics
pub mod Replay
mod Tests
use alpha_proof.Base.{
  ℕ, Bool, true, false, not, ◌&&◌, ◌||◌, Option, none, some, List, [], ◌∷◌, ◌++◌, push, is_some,
  if◌then◌else◌, new_set, Result, ok, ◌>>=◌, ◌>>◌, throw_if, schema_rejected,
}
use alpha_proof.Accounting.State.{Ident, Hash, Provenance, provenance_number, provenance_eq}

pub data NetworkProfile : Type 0 where
  ethereum_mainnet_forward cross_chain_testnet : NetworkProfile
  cross_chain_mainnet_forward mixed_diagnostic : NetworkProfile

pub data OperationalStatus : Type 0 where
  compliant violation unassessable : OperationalStatus

pub data EconomicStatus : Type 0 where
  criteria_met criteria_not_met unassessable : EconomicStatus

pub data StatisticalStatus : Type 0 where
  not_assessed insufficient_evidence criterion_not_met criterion_met : StatisticalStatus

pub data OverallStatus : Type 0 where
  not_eligible_for_real_capital unassessable criteria_not_met : OverallStatus
  insufficient_evidence eligible_under_policy : OverallStatus

-- Reason codes are texts, numbered; the code's own have the first numbers.
abbrev pub Reason : Type 0
Reason = ℕ

abbrev pub provenance_reason : Provenance → Reason
provenance_reason provenance = provenance_number provenance

abbrev pub required_evidence_unassessable : Reason
required_evidence_unassessable = 6

abbrev pub policy_criterion_not_met : Reason
policy_criterion_not_met = 7

abbrev pub inference_disabled : Reason
inference_disabled = 8

abbrev pub insufficient_statistical_evidence : Reason
insufficient_statistical_evidence = 9

abbrev pub all_frozen_criteria_met : Reason
all_frozen_criteria_met = 10

abbrev pub automatic_funding_disabled : Reason
automatic_funding_disabled = 11

-- A version is numbered; its schema excludes the empty text.
pub record EligibilityInput : Type 0 where
  pub experiment_id : Ident
  pub scenario_id : Ident
  pub policy_hash : Hash
  pub checkpoint_hash : Hash
  pub result_provenance : Provenance
  pub network_profile : NetworkProfile
  pub operational_status : OperationalStatus
  pub economic_status : EconomicStatus
  pub statistical_status : StatisticalStatus
  pub statistical_method_version : Option ℕ
  pub dimension_reason_codes : List Reason
  pub supersedes_hash : Option Hash

-- The receipt repeats the input and adds the two results.
pub record EvaluationReceipt : Type 0 where
  pub input : EligibilityInput
  pub overall_status : OverallStatus
  pub reason_codes : List Reason

abbrev pub is_forward_profile : NetworkProfile → Bool
is_forward_profile NetworkProfile.ethereum_mainnet_forward = true
is_forward_profile NetworkProfile.cross_chain_mainnet_forward = true
is_forward_profile _ = false

abbrev pub is_excluded : EligibilityInput → Bool
is_excluded input =
    not (provenance_eq input.result_provenance Provenance.forward_shadow)
    || not (is_forward_profile input.network_profile)

abbrev pub operational_unassessable : OperationalStatus → Bool
operational_unassessable OperationalStatus.unassessable = true
operational_unassessable _ = false

abbrev pub operational_violation : OperationalStatus → Bool
operational_violation OperationalStatus.violation = true
operational_violation _ = false

abbrev pub economic_unassessable : EconomicStatus → Bool
economic_unassessable EconomicStatus.unassessable = true
economic_unassessable _ = false

abbrev pub economic_not_met : EconomicStatus → Bool
economic_not_met EconomicStatus.criteria_not_met = true
economic_not_met _ = false

abbrev pub is_not_assessed : StatisticalStatus → Bool
is_not_assessed StatisticalStatus.not_assessed = true
is_not_assessed _ = false

abbrev pub is_insufficient : StatisticalStatus → Bool
is_insufficient StatisticalStatus.insufficient_evidence = true
is_insufficient _ = false

abbrev pub is_criterion_not_met : StatisticalStatus → Bool
is_criterion_not_met StatisticalStatus.criterion_not_met = true
is_criterion_not_met _ = false

-- The status, and the reason that the code puts first.
unfoldable pub overall_of : EligibilityInput → OverallStatus × Reason
overall_of input =
    if is_excluded input
    then (OverallStatus.not_eligible_for_real_capital, provenance_reason input.result_provenance)
    else if operational_unassessable input.operational_status
        || economic_unassessable input.economic_status
    then (OverallStatus.unassessable, required_evidence_unassessable)
    else if operational_violation input.operational_status
        || economic_not_met input.economic_status
        || is_criterion_not_met input.statistical_status
    then (OverallStatus.criteria_not_met, policy_criterion_not_met)
    else if not (is_some input.statistical_method_version)
        || is_not_assessed input.statistical_status
        || is_insufficient input.statistical_status
    then (
      OverallStatus.insufficient_evidence,
      (if is_not_assessed input.statistical_status
          then inference_disabled
          else insufficient_statistical_evidence),
    )
    else (OverallStatus.eligible_under_policy, all_frozen_criteria_met)

abbrev pub is_not_eligible : OverallStatus → Bool
is_not_eligible OverallStatus.not_eligible_for_real_capital = true
is_not_eligible _ = false

abbrev pub is_eligible : OverallStatus → Bool
is_eligible OverallStatus.eligible_under_policy = true
is_eligible _ = false

abbrev pub all_dimensions_met : EligibilityInput → Bool
all_dimensions_met input =
    is_some input.statistical_method_version
    && elim input.statistical_status [ StatisticalStatus.criterion_met ↦ true | _ ↦ false ]
    && elim input.operational_status [ OperationalStatus.compliant ↦ true | _ ↦ false ]
    && elim input.economic_status [ EconomicStatus.criteria_met ↦ true | _ ↦ false ]

-- `EvaluationReceipt.parse`: its two checks across fields.
unfoldable pub parse_evaluation : EvaluationReceipt → Result EvaluationReceipt
parse_evaluation receipt = do
  throw_if (is_excluded receipt.input && not (is_not_eligible receipt.overall_status))
      schema_rejected
  throw_if (is_eligible receipt.overall_status && not (all_dimensions_met receipt.input))
      schema_rejected
  ok receipt

unfoldable pub evaluate_eligibility : EligibilityInput → Result EvaluationReceipt
evaluate_eligibility input =
    let (status, reason) = overall_of input in
    parse_evaluation (record {
      input = input;
      overall_status = status;
      reason_codes =
          new_set [] (push (reason ∷ input.dimension_reason_codes) automatic_funding_disabled);
    })
