-- ===== src/Valuation/Comparable.antt =====
-- When the three portfolios of a scenario's checkpoint are comparable.
-- Code: packages/valuation/src/index.ts (`createScenarioCheckpoint`).
use alpha_proof.Base.{
  not, schema_rejected, Option-cases, inl, inr, ◌↔◌, ℕ, ◌≤◌, ◌≡◌, ◌≢◌, refl, sym, subst, true,
  false, some, ok, ok-injective, any, ◌!=◌, throw_if, throw_if-ok, accounting_invariant,
  environment_mismatch, invalid_transition, invalid_schema, >>=-elim, >>-elim, arith,
}
use alpha_proof.Accounting.State.{Timestamp}
use alpha_proof.Accounting.Check.Schema.{is_positive_uint}
use alpha_proof.Valuation.State.{
  Role, ReferenceStatus, CheckpointPortfolio, ScenarioCheckpoint, CheckpointHasher,
}
use alpha_proof.Valuation.{
  ScenarioCheckpointInput, portfolios_of, set_size, is_active, has_effect_after, roles_differ,
  statuses_differ, id_of, capital_of, scenario_of, provenance_of, check_scenario, body_of,
  parse_scenario_checkpoint, parse_checkpoint_portfolio, create_scenario_checkpoint,
}

abbrev pub Same : (CheckpointPortfolio → ℕ) → ScenarioCheckpointInput → Type 0
Same key input =
    (key input.cash_reference ≡ key input.agent)
    × (key input.conservative_yield_reference ≡ key input.agent)

-- When the last effect on a portfolio is not after a time.
abbrev pub IsUpTo : Timestamp → CheckpointPortfolio → Type 0
IsUpTo time item = (last : ℕ) → item.portfolio.last_applied_at ≡ some last → last ≤ time

-- What makes the agent comparable with its two references.
pub record IsComparable (input : ScenarioCheckpointInput) : Type 0 where
  pub agent_apart : input.agent.portfolio.portfolio_id ≢ input.cash_reference.portfolio.portfolio_id
  pub agent_apart_yield :
      input.agent.portfolio.portfolio_id ≢ input.conservative_yield_reference.portfolio.portfolio_id
  pub references_apart :
      input.cash_reference.portfolio.portfolio_id
      ≢ input.conservative_yield_reference.portfolio.portfolio_id
  pub capital : Same capital_of input
  pub scenario : Same scenario_of input
  pub provenance : Same provenance_of input
  pub agent_time : IsUpTo input.checkpoint_at input.agent
  pub cash_time : IsUpTo input.checkpoint_at input.cash_reference
  pub yield_time : IsUpTo input.checkpoint_at input.conservative_yield_reference
  pub agent_role : input.agent.role ≡ Role.agent
  pub cash_role : input.cash_reference.role ≡ Role.cash_reference
  pub yield_role : input.conservative_yield_reference.role ≡ Role.conservative_yield_reference
  pub cash_active : input.cash_reference.reference_status ≡ some ReferenceStatus.active
  pub cash_available : input.cash_reference.comparison_available ≡ true
  pub yield_available :
      is_active input.conservative_yield_reference.reference_status
      ≡ input.conservative_yield_reference.comparison_available

set_size-three :
    (key : CheckpointPortfolio → ℕ) (input : ScenarioCheckpointInput)
    → (set_size key input != 3) ≡ false
    → (key input.agent ≢ key input.cash_reference)
      × (key input.agent ≢ key input.conservative_yield_reference)
      × (key input.cash_reference ≢ key input.conservative_yield_reference)
set_size-three key input e = ground arith

set_size-one :
    (key : CheckpointPortfolio → ℕ) (input : ScenarioCheckpointInput)
    → (set_size key input != 1) ≡ false
    → Same key input
set_size-one key input e = ground arith

has_effect_after-IsUpTo :
    (time : Timestamp) (item : CheckpointPortfolio)
    → has_effect_after time item ≡ false
    → IsUpTo time item
has_effect_after-IsUpTo time item e last applied = ground arith

all_up_to :
    (input : ScenarioCheckpointInput)
    → any (has_effect_after input.checkpoint_at) (portfolios_of input) ≡ false
    → (has_effect_after input.checkpoint_at input.agent ≡ false)
      × (has_effect_after input.checkpoint_at input.cash_reference ≡ false)
      × (has_effect_after input.checkpoint_at input.conservative_yield_reference ≡ false)
all_up_to input e = ground arith

-- What the tests of the guards say, all of them false.
record Passed (input : ScenarioCheckpointInput) : Type 0 where
  apart : (set_size id_of input != 3) ≡ false
  capital : (set_size capital_of input != 1) ≡ false
  scenario : (set_size scenario_of input != 1) ≡ false
  provenance : (set_size provenance_of input != 1) ≡ false
  times : any (has_effect_after input.checkpoint_at) (portfolios_of input) ≡ false
  roles : roles_differ input ≡ false
  statuses : statuses_differ input ≡ false

check_scenario-Passed :
    (input : ScenarioCheckpointInput) → check_scenario input ≡ ok tt → Passed input
unfolding check_scenario
check_scenario-Passed input e =
    >>-elim (throw_if (set_size id_of input != 3) accounting_invariant) _ e λ apart e₁.
      >>-elim (throw_if (set_size capital_of input != 1) accounting_invariant) _ e₁ λ capital e₂.
        >>-elim (throw_if (set_size scenario_of input != 1) accounting_invariant) _ e₂
          λ scenario e₃.
            >>-elim (throw_if (set_size provenance_of input != 1) environment_mismatch) _ e₃
              λ provenance e₄.
                >>-elim
                  (throw_if (any (has_effect_after input.checkpoint_at) (portfolios_of input))
                    invalid_transition)
                  _ e₄
                  λ times e₅.
                    >>-elim (throw_if (roles_differ input) invalid_schema) _ e₅ λ roles e₆. record {
                      apart = throw_if-ok _ _ apart;
                      capital = throw_if-ok _ _ capital;
                      scenario = throw_if-ok _ _ scenario;
                      provenance = throw_if-ok _ _ provenance;
                      times = throw_if-ok _ _ times;
                      roles = throw_if-ok _ _ roles;
                      statuses = throw_if-ok _ _ e₆;
                    }

Passed-check_scenario :
    (input : ScenarioCheckpointInput) → Passed input → check_scenario input ≡ ok tt
unfolding check_scenario
Passed-check_scenario input p =
    rw (p.apart, p.capital, p.scenario, p.provenance, p.times, p.roles, p.statuses) refl

roles_differ-false :
    (input : ScenarioCheckpointInput)
    → roles_differ input ≡ false
    → (input.agent.role ≡ Role.agent)
      × (input.cash_reference.role ≡ Role.cash_reference)
      × (input.conservative_yield_reference.role ≡ Role.conservative_yield_reference)
roles_differ-false input e = ground arith

statuses_differ-false :
    (input : ScenarioCheckpointInput)
    → statuses_differ input ≡ false
    → (input.cash_reference.reference_status ≡ some ReferenceStatus.active)
      × (input.cash_reference.comparison_available ≡ true)
      × (is_active input.conservative_yield_reference.reference_status
          ≡ input.conservative_yield_reference.comparison_available)
statuses_differ-false input e = ground arith

Passed-IsComparable : (input : ScenarioCheckpointInput) → Passed input → IsComparable input
Passed-IsComparable input p =
    let (a, b, c) = set_size-three id_of input p.apart in
    let (t, u, w) = all_up_to input p.times in
    let (x, y, z) = roles_differ-false input p.roles in
    let (l, m, n) = statuses_differ-false input p.statuses in
    record {
      agent_apart = a;
      agent_apart_yield = b;
      references_apart = c;
      capital = set_size-one capital_of input p.capital;
      scenario = set_size-one scenario_of input p.scenario;
      provenance = set_size-one provenance_of input p.provenance;
      agent_time = has_effect_after-IsUpTo _ input.agent t;
      cash_time = has_effect_after-IsUpTo _ input.cash_reference u;
      yield_time = has_effect_after-IsUpTo _ input.conservative_yield_reference w;
      agent_role = x;
      cash_role = y;
      yield_role = z;
      cash_active = l;
      cash_available = m;
      yield_available = n;
    }

three-set_size :
    (key : CheckpointPortfolio → ℕ) (input : ScenarioCheckpointInput)
    → (key input.agent ≢ key input.cash_reference)
    → (key input.agent ≢ key input.conservative_yield_reference)
    → (key input.cash_reference ≢ key input.conservative_yield_reference)
    → (set_size key input != 3) ≡ false
three-set_size key input a b c = ground arith

one-set_size :
    (key : CheckpointPortfolio → ℕ) (input : ScenarioCheckpointInput)
    → Same key input
    → (set_size key input != 1) ≡ false
one-set_size key input (a, b) = ground arith

IsUpTo-has_effect_after :
    (time : Timestamp) (item : CheckpointPortfolio)
    → IsUpTo time item
    → has_effect_after time item ≡ false
IsUpTo-has_effect_after time item e = elim (Option-cases item.portfolio.last_applied_at) [
  | inl none_yet ↦ ground arith
  | inr (last, applied) ↦ ground (arith, e last applied)
]

IsComparable-Passed : (input : ScenarioCheckpointInput) → IsComparable input → Passed input
IsComparable-Passed input c = record {
  apart = three-set_size id_of input c.agent_apart c.agent_apart_yield c.references_apart;
  capital = one-set_size capital_of input c.capital;
  scenario = one-set_size scenario_of input c.scenario;
  provenance = one-set_size provenance_of input c.provenance;
  times =
      rw
        (
          IsUpTo-has_effect_after input.checkpoint_at input.agent c.agent_time,
          IsUpTo-has_effect_after input.checkpoint_at input.cash_reference c.cash_time,
          IsUpTo-has_effect_after input.checkpoint_at input.conservative_yield_reference
              c.yield_time,
        )
        refl;
  roles = rw (c.agent_role, c.cash_role, c.yield_role) refl;
  statuses = ground (arith, c.cash_active, c.cash_available, c.yield_available);
}

pub parse_scenario_checkpoint-same :
    (c : ScenarioCheckpoint) {out : ScenarioCheckpoint}
    → parse_scenario_checkpoint c ≡ ok out
    → c ≡ out
unfolding parse_scenario_checkpoint
parse_scenario_checkpoint-same c e =
    >>-elim (throw_if (not (is_positive_uint c.body.sequence)) schema_rejected) _ e λ g e₁.
      >>=-elim (parse_checkpoint_portfolio c.body.agent) _ e₁ λ x p e₂.
        >>=-elim (parse_checkpoint_portfolio c.body.cash_reference) _ e₂ λ y q e₃.
          >>=-elim (parse_checkpoint_portfolio c.body.conservative_yield_reference) _ e₃
            λ z r e₄. ok-injective e₄

-- A checkpoint is what the call returns exactly if its three portfolios are comparable (distinct
-- portfolios of one scenario, capital and provenance, without an effect after the checkpoint, in
-- their roles, with an active cash reference and a yield reference that is available exactly if it
-- is active), it is made of the input with the hash of its content, and its schema accepts it.
pub create_scenario_checkpoint_iff :
    (h : CheckpointHasher) (input : ScenarioCheckpointInput) (c : ScenarioCheckpoint)
    → (create_scenario_checkpoint h input ≡ ok c) ↔ (
        IsComparable input
        × (c ≡ record { body = body_of input; checkpoint_hash = h.checkpoint_hash (body_of input) })
        × (parse_scenario_checkpoint c ≡ ok c))
unfolding create_scenario_checkpoint
create_scenario_checkpoint_iff h input c = (made_of, made)
  where
    result : ScenarioCheckpoint
    result = record { body = body_of input; checkpoint_hash = h.checkpoint_hash (body_of input) }

    made_of :
        create_scenario_checkpoint h input ≡ ok c
        → IsComparable input × (c ≡ result) × (parse_scenario_checkpoint c ≡ ok c)
    made_of e = >>-elim (check_scenario input) _ e λ checked e₁.
        let same = parse_scenario_checkpoint-same result e₁ in
        (
          Passed-IsComparable input (check_scenario-Passed input checked),
          sym same,
          subst (λ x. parse_scenario_checkpoint x ≡ ok c) same e₁,
        )

    made :
        IsComparable input × (c ≡ result) × (parse_scenario_checkpoint c ≡ ok c)
        → create_scenario_checkpoint h input ≡ ok c
    made (comparable, same, parsed) =
        rw (Passed-check_scenario input (IsComparable-Passed input comparable))
          (subst (λ x. parse_scenario_checkpoint x ≡ ok c) same parsed)
