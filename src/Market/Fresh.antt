-- ===== src/Market/Fresh.antt =====
-- Observations and the end of their validity.
-- Code: packages/market-data/src/index.ts (`requireFresh`, `toSourceRef`).
use alpha_proof.Base.{
  ℕ, ◌≤◌, ◌<◌, ◌≡◌, ◌↔◌, sym, ap, subst, ◌∙◌, false, not, ◌&&◌, ◌||◌, ok, ok-injective, throw_if,
  throw_if-ok, schema_rejected, data_stale, ltb, leb, >>=-elim, >>-elim, arith,
}
use alpha_proof.Accounting.State.{Timestamp, Provenance, provenance_eq}
use alpha_proof.Market.Observation.{
  ArchivedObservation, block_finalized, observation_in_range, parse_observation,
}
use alpha_proof.Market.{require_fresh}

-- What is asked of an observation that is used at a time.
pub record IsUsable (o : ArchivedObservation) (time : Timestamp) : Type 0 where
  pub parsed : parse_observation o ≡ ok o
  pub not_before : o.observed_at ≤ time
  pub before_expiry : time < o.expires_at

parse_observation-same :
    (o : ArchivedObservation) {out : ArchivedObservation} → parse_observation o ≡ ok out → o ≡ out
unfolding parse_observation
parse_observation-same o e =
    >>-elim (throw_if (not (observation_in_range o)) schema_rejected) _ e λ a e₁.
      >>-elim (throw_if (ltb o.observed_at o.requested_at) schema_rejected) _ e₁ λ b e₂.
        >>-elim (throw_if (leb o.expires_at o.observed_at) schema_rejected) _ e₂ λ c e₃.
          >>-elim
            (throw_if
              (provenance_eq o.result_provenance Provenance.forward_shadow
                && not (block_finalized o.block))
              schema_rejected)
            _ e₃ λ d e₄. ok-injective e₄

outside_interval-false : (t a b : ℕ) → (ltb t a || leb b t) ≡ false → (a ≤ t) × (t < b)
outside_interval-false t a b e = ground arith

inside_interval : (t a b : ℕ) → a ≤ t → t < b → (ltb t a || leb b t) ≡ false
inside_interval t a b h l = ground arith

-- An observation is returned exactly if it is the one that was given, its schema accepts it, and
-- the time is not before it was observed and before it expires.
pub require_fresh_iff :
    (o out : ArchivedObservation) (time : Timestamp)
    → (require_fresh o time ≡ ok out) ↔ ((o ≡ out) × IsUsable o time)
unfolding require_fresh
require_fresh_iff o out time = (
  (λ e. >>=-elim (parse_observation o) _ e λ p parsed e₁.
      let same = parse_observation-same o parsed in
      >>-elim (throw_if (ltb time p.observed_at || leb p.expires_at time) data_stale) _ e₁
        λ fresh e₂.
          let (after, before) =
            outside_interval-false time p.observed_at p.expires_at (throw_if-ok _ _ fresh) in
          (
            same ∙ ok-injective e₂,
            subst (λ x. IsUsable x time) (sym same)
                (record {
                  parsed = subst (λ x. parse_observation x ≡ ok p) same parsed;
                  not_before = after;
                  before_expiry = before;
                }),
          )),
  (λ (same, usable).
      rw
        (
          usable.parsed,
          inside_interval time o.observed_at o.expires_at usable.not_before usable.before_expiry,
        )
        (ap ok same)),
)
