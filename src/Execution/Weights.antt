-- ===== src/Execution/Weights.antt =====
-- The weights of an allocation, split into cash and investments.
-- Code: packages/execution/src/index.ts, packages/schemas/src/primitives.ts (`Allocation`).
use alpha_proof.Base.{
  ◌+◌, ◌≡◌, refl, true, not, Bool, List, [], ◌∷◌, filter, Bool-cases, inl, inr, Result, ok,
  ok-injective, for_each, throw_if, throw_if-ok, schema_rejected, >>-elim, arith,
}
use alpha_proof.Execution.State.{Texts, AllocationEntry, ActionIntent}
use alpha_proof.Execution.Schema.{weight_total, allocation_fits, parse_intent, numbers_fit}
use alpha_proof.Execution.{cash_entries, invested_entries}

-- Cash and investments together have all the weight.
pub weight_total-split :
    (t : Texts) (entries : List AllocationEntry)
    → weight_total (cash_entries t entries) + weight_total (invested_entries t entries)
      ≡ weight_total entries
weight_total-split t [] = refl
weight_total-split t (x ∷ xs) = ground (arith, weight_total-split t xs)

-- An entry that a filter keeps first was checked by the loop over all of them.
pub for_each-first {ℓ} :
    {A : Type ℓ} (check : A → Result (Unit {0})) (p : A → Bool) (xs : List A) {x : A}
    {rest : List A}
    → filter p xs ≡ x ∷ rest
    → for_each check xs ≡ ok tt
    → (check x ≡ ok tt) × (p x ≡ true)
for_each-first check p [] kept ran = absurd (cc kept)
for_each-first check p (y ∷ ys) {x = x} {rest = rest} kept ran =
    >>-elim (check y) _ ran λ first later. elim (Bool-cases (p y)) [
      | inl holds ↦ ground (arith, holds)
      | inr fails ↦ for_each-first check p ys {x = x} {rest = rest} (rw fails at kept) later
    ]

allocation_fits-weights :
    (t : Texts) (entries : List AllocationEntry)
    → allocation_fits t entries ≡ true
    → weight_total entries ≡ 10000
unfolding allocation_fits
allocation_fits-weights t entries e = ground arith

pub parse_intent-weights :
    (t : Texts) (i : ActionIntent) {out : ActionIntent}
    → parse_intent t i ≡ ok out
    → (i ≡ out) × (weight_total i.target_allocation ≡ 10000)
unfolding parse_intent
parse_intent-weights t i e =
    >>-elim (throw_if (not (allocation_fits t i.target_allocation)) schema_rejected) _ e λ fits e₁.
      >>-elim (throw_if (not (numbers_fit i)) schema_rejected) _ e₁ λ numbers e₂. (
        ok-injective e₂,
        allocation_fits-weights t i.target_allocation (ground (arith, throw_if-ok _ _ fits)),
      )
