-- ===== src/Evaluation/Eligibility.antt =====
-- The receipt of an evaluation, and when it is eligible.
-- Code: packages/evaluation/src/index.ts (`evaluateEligibility`).
use alpha_proof.Base.{
  ℕ, ◌≡◌, refl, true, not, ◌&&◌, List, [], ◌∷◌, push, includes, distinct, new_set, ◌==◌, ==_iff,
  Bool-cases, inl, inr, ok, arith,
}
use alpha_proof.Evaluation.{
  EligibilityInput, EvaluationReceipt, is_excluded, all_dimensions_met, overall_of, is_eligible,
  is_not_eligible, parse_evaluation, evaluate_eligibility, automatic_funding_disabled,
}

overall_of-eligible :
    (i : EligibilityInput)
    → is_eligible (overall_of i).0 ≡ (not (is_excluded i) && all_dimensions_met i)
unfolding overall_of
overall_of-eligible i = ground arith

overall_of-excluded : (i : EligibilityInput) → is_not_eligible (overall_of i).0 ≡ is_excluded i
unfolding overall_of
overall_of-excluded i = ground arith

-- A set has the values of the list that are not in its start, each once.
includes-new_set :
    (k : ℕ) (seen xs : List ℕ)
    → includes k (new_set seen xs) ≡ (includes k xs && not (includes k seen))
includes-new_set k seen [] = refl
includes-new_set k seen (x ∷ xs) = elim (Bool-cases (k == x)) [
  | inl e ↦ ground (arith, ==_iff k x, includes-new_set k seen xs, includes-new_set k (x ∷ seen) xs)
  | inr e ↦ ground (arith, includes-new_set k seen xs, includes-new_set k (x ∷ seen) xs)
]

new_set-distinct : (seen xs : List ℕ) → distinct (new_set seen xs) ≡ true
new_set-distinct seen [] = refl
new_set-distinct seen (x ∷ xs) = ground (
  arith,
  new_set-distinct seen xs,
  new_set-distinct (x ∷ seen) xs,
  includes-new_set x (x ∷ seen) xs,
)

includes-push : (k : ℕ) (xs : List ℕ) → includes k (push xs k) ≡ true
includes-push k [] = ground arith
includes-push k (x ∷ xs) = ground (arith, includes-push k xs)

-- What is said of a receipt.
pub record IsEvaluated (i : EligibilityInput) (r : EvaluationReceipt) : Type 0 where
  pub input : r.input ≡ i
  pub eligible : is_eligible r.overall_status ≡ (not (is_excluded i) && all_dimensions_met i)
  pub excluded : is_not_eligible r.overall_status ≡ is_excluded i
  pub no_funding : includes automatic_funding_disabled r.reason_codes ≡ true
  pub reasons_once : distinct r.reason_codes ≡ true

-- Every input gets a receipt, which passes its schema: it is eligible exactly if the provenance
-- and the profile are forward and every dimension is met with a method's version, it is not
-- eligible for real capital exactly if they are excluded, and its reasons, each once, always say
-- that automatic funding is disabled.
pub evaluate_eligibility-IsEvaluated :
    (i : EligibilityInput)
    → (r : EvaluationReceipt) × (evaluate_eligibility i ≡ ok r) × IsEvaluated i r
unfolding evaluate_eligibility parse_evaluation
evaluate_eligibility-IsEvaluated i =
    let reasons = push ((overall_of i).1 ∷ i.dimension_reason_codes) automatic_funding_disabled in
    let r : EvaluationReceipt = record {
      input = i;
      overall_status = (overall_of i).0;
      reason_codes = new_set [] reasons;
    } in
    let e = overall_of-eligible i in
    let x = overall_of-excluded i in
    let accepted : evaluate_eligibility i ≡ ok r = rw (e, x) (ground arith) in
    (
      r,
      accepted,
      record {
        input = refl;
        eligible = e;
        excluded = x;
        no_funding =
            rw
              (
                includes-new_set automatic_funding_disabled [] reasons,
                includes-push automatic_funding_disabled
                    ((overall_of i).1 ∷ i.dimension_reason_codes),
              )
              refl;
        reasons_once = new_set-distinct [] reasons;
      },
    )
