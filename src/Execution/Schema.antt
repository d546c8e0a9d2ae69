-- ===== src/Execution/Schema.antt =====
-- The checks of the schemas of policies, intents and plans.
-- Code: packages/schemas/src/objects.ts, packages/schemas/src/primitives.ts (`Allocation`).
use alpha_proof.Base.{
  ℕ, Bool, true, not, ◌&&◌, ◌||◌, List, [], ◌∷◌, map, all, length, total_by, includes, ltb, leb,
  ◌==◌, schema_rejected, Result, ok, ◌>>◌, throw_if,
}
use alpha_proof.Accounting.State.{Ident}
use alpha_proof.Accounting.Check.Schema.{is_uint, is_positive_uint}
use alpha_proof.Execution.State.{
  ExperimentPolicy, AllocationEntry, ActionIntent, Operation, ExecutionPlan, Texts,
}

-- `ExperimentPolicy.parse`
unfoldable pub parse_policy : ExperimentPolicy → Result ExperimentPolicy
parse_policy policy = do
  throw_if (not (is_positive_uint policy.signing_chain_id)) schema_rejected
  throw_if (ltb policy.starts_at policy.locked_at || leb policy.ends_at policy.starts_at)
      schema_rejected
  ok policy

abbrev pub weight_total : List AllocationEntry → ℕ
weight_total = total_by (λ entry. entry.weight_bps)

-- Each key is greater than the one before.
abbrev pub ascending_after : ℕ → List ℕ → Bool
ascending_after last [] = true
ascending_after last (key ∷ keys) = ltb last key && ascending_after key keys

abbrev pub ascending : List ℕ → Bool
ascending [] = true
ascending (key ∷ keys) = ascending_after key keys

abbrev pub entry_in_range : AllocationEntry → Bool
entry_in_range entry = ltb 0 entry.weight_bps && leb entry.weight_bps 10000

-- `Allocation`
unfoldable pub allocation_fits : Texts → List AllocationEntry → Bool
allocation_fits texts entries =
    leb 1 (length entries)
    && leb (length entries) 32
    && all entry_in_range entries
    && weight_total entries == 10000
    && ascending (map (λ entry. texts.allocation_key entry.network_id entry.instrument_id) entries)

abbrev pub numbers_fit : ActionIntent → Bool
numbers_fit intent =
    is_uint intent.nonce
    && is_uint intent.expected_portfolio_version
    && is_positive_uint intent.valid_until
    && is_uint intent.max_cost_usdc_minor
    && is_uint intent.max_transfer_usdc_minor
    && leb intent.max_slippage_bps 10000

-- `ActionIntent.parse`
unfoldable pub parse_intent : Texts → ActionIntent → Result ActionIntent
parse_intent texts intent = do
  throw_if (not (allocation_fits texts intent.target_allocation)) schema_rejected
  throw_if (not (numbers_fit intent)) schema_rejected
  ok intent

-- The loop of `ExecutionPlan` over the steps, with the identifiers of the steps before.
unfoldable pub steps_ordered : List Ident → List Operation → Bool
steps_ordered prior [] = true
steps_ordered prior (step ∷ steps) =
    not (includes step.operation_id prior)
    && all (λ id. includes id prior) step.depends_on
    && steps_ordered (step.operation_id ∷ prior) steps

abbrev pub operation_in_range : Operation → Bool
operation_in_range step =
    leb step.input.decimals 36 && is_uint step.input.minor && is_uint step.max_cost_usdc_minor

abbrev pub plan_fits : ExecutionPlan → Bool
plan_fits plan =
    is_uint plan.portfolio_version
    && leb 1 (length plan.steps)
    && leb (length plan.steps) 128
    && all operation_in_range plan.steps

-- `ExecutionPlan.parse`
unfoldable pub parse_plan : ExecutionPlan → Result ExecutionPlan
parse_plan plan = do
  throw_if (not (plan_fits plan)) schema_rejected
  throw_if (not (steps_ordered [] plan.steps)) schema_rejected
  ok plan
