-- ===== src/Evaluation/Replay/Recorded.antt =====
-- A run that is recorded and replayed, and results with the same hashes.
-- Code: packages/evaluation/src/index.ts (`replayM4`).
use alpha_proof.Base.{
  ℕ, ◌≡◌, refl, sym, ap, subst, ◌∙◌, true, false, not, Option, some, none, List, all, ◌!=◌, ok,
  ok-injective, throw_if, throw_if-ok, schema_rejected, replay_mismatch, >>=-elim, >>-elim, arith,
}
use alpha_proof.Accounting.State.{Hash}
use alpha_proof.Accounting.Check.Schema.{is_uint, is_positive_uint}
use alpha_proof.Valuation.State.{CheckpointBody, ScenarioCheckpoint, CheckpointHasher}
use alpha_proof.Valuation.{
  checkpoint_portfolio, create_scenario_checkpoint, parse_scenario_checkpoint,
  parse_checkpoint_portfolio, ScenarioCheckpointInput,
}
use alpha_proof.Valuation.Comparable.{
  create_scenario_checkpoint_iff, parse_scenario_checkpoint-same,
}
use alpha_proof.Evaluation.Metrics.{
  EvaluationBody, ScenarioEvaluation, parse_scenario_evaluation, evaluate_scenario,
}
use alpha_proof.Evaluation.Metrics.Compared.{evaluate_scenario-of, parse_scenario_evaluation-same}
use alpha_proof.Evaluation.Replay.{
  RawObject, CheckpointReplayInputs, M4ReplayBundle, ReplayHasher, parse_replay_inputs,
  parse_bundle, check_archive, remade_checkpoint, replay_m4,
}

-- What a replay that returns has found.
pub record Replayed (h : ReplayHasher) (b : M4ReplayBundle) (c : ScenarioCheckpoint)
    (e : ScenarioEvaluation) : Type 0 where
  pub archive : check_archive h b ≡ ok tt
  pub remade : remade_checkpoint h.checkpoints b.checkpoint b.checkpoint_inputs ≡ ok c
  pub checkpoint : c.checkpoint_hash ≡ b.expected_checkpoint_hash
  pub evaluated : evaluate_scenario h.evaluation_hash c b.prior_agent_marks ≡ ok e
  pub evaluation : e.evaluation_hash ≡ b.expected_evaluation.evaluation_hash

parse_bundle-same : (b : M4ReplayBundle) {out : M4ReplayBundle} → parse_bundle b ≡ ok out → b ≡ out
unfolding parse_bundle
parse_bundle-same b e =
    >>=-elim (parse_scenario_checkpoint (record { body = b.checkpoint; checkpoint_hash = 0 })) _ e
      λ c p e₁.
        >>-elim (throw_if (not (all is_uint b.prior_agent_marks)) schema_rejected) _ e₁ λ g e₂.
          >>-elim (parse_replay_inputs b.checkpoint_inputs) _ e₂ λ q e₃.
            >>=-elim (parse_scenario_evaluation b.expected_evaluation) _ e₃
              λ x r e₄. ok-injective e₄

neq-false : (a b : ℕ) → (a != b) ≡ false → a ≡ b
neq-false a b e = ground arith

pub replay_m4-Replayed :
    (h : ReplayHasher) (b : M4ReplayBundle) {c : ScenarioCheckpoint} {e : ScenarioEvaluation}
    → replay_m4 h b ≡ ok (c, e)
    → Replayed h b c e
unfolding replay_m4
replay_m4-Replayed h b {c} {e} ran = >>=-elim (parse_bundle b) _ ran λ p parsed e₁.
    let same = parse_bundle-same b parsed in
    subst (λ x. Replayed h x c e) (sym same)
      (>>-elim (check_archive h p) _ e₁ λ archive e₂.
        >>=-elim (remade_checkpoint h.checkpoints p.checkpoint p.checkpoint_inputs) _ e₂
          λ c' remade e₃.
            >>-elim (throw_if (c'.checkpoint_hash != p.expected_checkpoint_hash) replay_mismatch) _
              e₃
              λ hashed e₄.
                >>=-elim (evaluate_scenario h.evaluation_hash c' p.prior_agent_marks) _ e₄
                  λ e' evaluated e₅.
                    >>-elim
                      (throw_if (e'.evaluation_hash != p.expected_evaluation.evaluation_hash)
                        replay_mismatch)
                      _ e₅
                      λ hashed' e₆.
                        let out = ok-injective e₆ in
                        subst (λ x. Replayed h p x.0 x.1) out
                          (record {
                            archive = archive;
                            remade = remade;
                            checkpoint = neq-false _ _ (throw_if-ok _ _ hashed);
                            evaluated = evaluated;
                            evaluation = neq-false _ _ (throw_if-ok _ _ hashed');
                          }))

equal-neq : (a : ℕ) → (a != a) ≡ false
equal-neq a = ground arith

pub Replayed-replay_m4 :
    (h : ReplayHasher) (b : M4ReplayBundle) (c : ScenarioCheckpoint) (e : ScenarioEvaluation)
    → parse_bundle b ≡ ok b
    → Replayed h b c e
    → replay_m4 h b ≡ ok (c, e)
unfolding replay_m4
Replayed-replay_m4 h b c e parsed r =
    rw
      (
        parsed,
        r.archive,
        r.remade,
        r.evaluated,
        r.checkpoint,
        r.evaluation,
        equal-neq b.expected_checkpoint_hash,
        equal-neq b.expected_evaluation.evaluation_hash,
      )
      refl

remade-hashed :
    (h : CheckpointHasher) (b : CheckpointBody) (inputs : Option CheckpointReplayInputs)
    {c : ScenarioCheckpoint}
    → remade_checkpoint h b inputs ≡ ok c
    → c.checkpoint_hash ≡ h.checkpoint_hash c.body
unfolding remade_checkpoint
remade-hashed h b none e =
    let same = parse_scenario_checkpoint-same _ e in
    ap (λ (x : ScenarioCheckpoint). x.checkpoint_hash) (sym same)
    ∙ ap (λ (x : ScenarioCheckpoint). h.checkpoint_hash x.body) same
remade-hashed h b (some inputs) {c} e =
    >>=-elim (checkpoint_portfolio h b.checkpoint_id inputs.agent) _ e λ agent p e₁.
      >>=-elim (checkpoint_portfolio h b.checkpoint_id inputs.cash_reference) _ e₁ λ cash q e₂.
        >>=-elim (checkpoint_portfolio h b.checkpoint_id inputs.conservative_yield_reference) _ e₂
          λ yields r e₃.
            let (_, made, _) = (create_scenario_checkpoint_iff h _ c).0 e₃ in
            ap (λ (x : ScenarioCheckpoint). x.checkpoint_hash) made
            ∙ ap (λ (x : ScenarioCheckpoint). h.checkpoint_hash x.body) (sym made)

-- A hash tells two values apart.
abbrev pub NoCollision : {A : Type 0} → (A → Hash) → A → A → Type 0
NoCollision hash x y = hash x ≡ hash y → x ≡ y

-- If two bundles expect the same hashes and both replay, and the hashes tell the two checkpoints
-- apart and the two evaluations apart, then both give the same checkpoint and evaluation.
pub replay_m4-agree :
    (h : ReplayHasher) (b b' : M4ReplayBundle) {c c' : ScenarioCheckpoint}
    {e e' : ScenarioEvaluation}
    → NoCollision h.checkpoints.checkpoint_hash c.body c'.body
    → NoCollision h.evaluation_hash e.body e'.body
    → b.expected_checkpoint_hash ≡ b'.expected_checkpoint_hash
    → b.expected_evaluation.evaluation_hash ≡ b'.expected_evaluation.evaluation_hash
    → replay_m4 h b ≡ ok (c, e)
    → replay_m4 h b' ≡ ok (c', e')
    → (c ≡ c') × (e ≡ e')
replay_m4-agree h b b' {c} {c'} {e} {e'} apart apart' same same' ran ran' =
    let r = replay_m4-Replayed h b ran in
    let r' = replay_m4-Replayed h b' ran' in
    let hashed = remade-hashed h.checkpoints b.checkpoint b.checkpoint_inputs r.remade in
    let hashed' = remade-hashed h.checkpoints b'.checkpoint b'.checkpoint_inputs r'.remade in
    let hash : c.checkpoint_hash ≡ c'.checkpoint_hash = r.checkpoint ∙ same ∙ sym r'.checkpoint in
    let body = apart (sym hashed ∙ hash ∙ hashed') in
    let hash' : e.evaluation_hash ≡ e'.evaluation_hash = r.evaluation ∙ same' ∙ sym r'.evaluation in
    let made = (evaluate_scenario-of h.evaluation_hash c b.prior_agent_marks r.evaluated).0 in
    let made' = (evaluate_scenario-of h.evaluation_hash c' b'.prior_agent_marks r'.evaluated).0 in
    let evaluated =
      ap (λ (x : ScenarioEvaluation). x.evaluation_hash) made
      ∙ ap (λ (x : ScenarioEvaluation). h.evaluation_hash x.body) (sym made) in
    let evaluated' =
      ap (λ (x : ScenarioEvaluation). x.evaluation_hash) made'
      ∙ ap (λ (x : ScenarioEvaluation). h.evaluation_hash x.body) (sym made') in
    let body' = apart' (sym evaluated ∙ hash' ∙ evaluated') in
    (ground (arith, hash, body), ground (arith, hash', body'))

-- The bundle that a run leaves.
abbrev pub recorded :
    CheckpointReplayInputs
    → List ℕ
    → List RawObject
    → ScenarioCheckpoint
    → ScenarioEvaluation
    → M4ReplayBundle
recorded inputs prior objects c e = record {
  checkpoint = c.body;
  prior_agent_marks = prior;
  raw_objects = objects;
  checkpoint_inputs = some inputs;
  expected_checkpoint_hash = c.checkpoint_hash;
  expected_evaluation = e;
}

rehashed-parse :
    (c : ScenarioCheckpoint) (hash : Hash)
    → parse_scenario_checkpoint c ≡ ok c
    → parse_scenario_checkpoint (record { body = c.body; checkpoint_hash = hash })
      ≡ ok (record { body = c.body; checkpoint_hash = hash })
unfolding parse_scenario_checkpoint
rehashed-parse c hash e =
    >>-elim (throw_if (not (is_positive_uint c.body.sequence)) schema_rejected) _ e λ g e₁.
      >>=-elim (parse_checkpoint_portfolio c.body.agent) _ e₁ λ x p e₂.
        >>=-elim (parse_checkpoint_portfolio c.body.cash_reference) _ e₂ λ y q e₃.
          >>=-elim (parse_checkpoint_portfolio c.body.conservative_yield_reference) _ e₃
            λ z r e₄. rw (g, p, q, r) refl

evaluated-parse :
    (hash : EvaluationBody → Hash) (c : ScenarioCheckpoint) (prior : List ℕ)
    {e : ScenarioEvaluation}
    → evaluate_scenario hash c prior ≡ ok e
    → parse_scenario_evaluation e ≡ ok e
unfolding evaluate_scenario
evaluated-parse hash c prior {e} ran = >>=-elim (parse_scenario_checkpoint c) _ ran λ p parsed rest.
    subst (λ x. parse_scenario_evaluation x ≡ ok e) (parse_scenario_evaluation-same _ rest) rest

recorded-parse :
    (h : ReplayHasher) (inputs : CheckpointReplayInputs) (prior : List ℕ) (objects : List RawObject)
    (c : ScenarioCheckpoint) (e : ScenarioEvaluation)
    → parse_replay_inputs (some inputs) ≡ ok tt
    → all is_uint prior ≡ true
    → evaluate_scenario h.evaluation_hash c prior ≡ ok e
    → let b = recorded inputs prior objects c e in parse_bundle b ≡ ok b
unfolding parse_bundle
recorded-parse h inputs prior objects c e fit marks ran =
    rw
      (
        rehashed-parse c 0 (evaluate_scenario-of h.evaluation_hash c prior ran).1,
        marks,
        fit,
        evaluated-parse h.evaluation_hash c prior ran,
      )
      refl

-- The three portfolios of a run, made from their inputs.
pub record RunOf (h : CheckpointHasher) (inputs : CheckpointReplayInputs)
    (input : ScenarioCheckpointInput) : Type 0 where
  pub agent : checkpoint_portfolio h input.checkpoint_id inputs.agent ≡ ok input.agent
  pub cash :
      checkpoint_portfolio h input.checkpoint_id inputs.cash_reference ≡ ok input.cash_reference
  pub yields :
      checkpoint_portfolio h input.checkpoint_id inputs.conservative_yield_reference
      ≡ ok input.conservative_yield_reference

remade-run :
    (h : CheckpointHasher) (inputs : CheckpointReplayInputs) (input : ScenarioCheckpointInput)
    (c : ScenarioCheckpoint)
    → RunOf h inputs input
    → create_scenario_checkpoint h input ≡ ok c
    → remade_checkpoint h c.body (some inputs) ≡ ok c
unfolding remade_checkpoint
remade-run h inputs input c run created =
    let (_, made, _) = (create_scenario_checkpoint_iff h input c).0 created in
    let body = ap (λ (x : ScenarioCheckpoint). x.body) made in
    subst (λ x. remade_checkpoint h x (some inputs) ≡ ok c) (sym body)
      (rw (run.agent, run.cash, run.yields) created)

-- A run is a checkpoint of three portfolios made from their inputs, and its evaluation. If its
-- inputs and earlier marks are within their schemas and its archive passes the checks of a replay,
-- then the bundle that it leaves replays to its own checkpoint and evaluation.
pub replay_m4-recorded :
    (h : ReplayHasher) (inputs : CheckpointReplayInputs) (input : ScenarioCheckpointInput)
    (prior : List ℕ) (objects : List RawObject) {c : ScenarioCheckpoint} {e : ScenarioEvaluation}
    → RunOf h.checkpoints inputs input
    → create_scenario_checkpoint h.checkpoints input ≡ ok c
    → evaluate_scenario h.evaluation_hash c prior ≡ ok e
    → parse_replay_inputs (some inputs) ≡ ok tt
    → all is_uint prior ≡ true
    → check_archive h (recorded inputs prior objects c e) ≡ ok tt
    → replay_m4 h (recorded inputs prior objects c e) ≡ ok (c, e)
replay_m4-recorded h inputs input prior objects {c} {e} run created evaluated fit marks archived =
    Replayed-replay_m4 h (recorded inputs prior objects c e) c e
      (recorded-parse h inputs prior objects c e fit marks evaluated)
      (record {
        archive = archived;
        remade = remade-run h.checkpoints inputs input c run created;
        checkpoint = refl;
        evaluated = evaluated;
        evaluation = refl;
      })
