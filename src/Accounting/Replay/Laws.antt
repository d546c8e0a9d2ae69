-- ===== src/Accounting/Replay/Laws.antt =====
-- The states and hashes of a replay, its serialization, and where it may be cut.
-- Code: packages/accounting/src/index.ts (`replay`).
use alpha_proof.Base.{
  ℕ, suc, ◌+◌, ◌≡◌, refl, sym, ◌∙◌, Bool, true, false, List, [], ◌∷◌, ◌++◌, length, get_elem?,
  get_elem?-push, get_elem?-last, push, some, ap, subst, subst₂, ok, ok-injective, Result-cases,
  inl, inr, length-append, ◌>>=◌, >>=-elim, arith,
}
use alpha_proof.Accounting.State.{Portfolio}
use alpha_proof.Accounting.Receipt.{Receipt}
use alpha_proof.Accounting.Check.{assert_portfolio}
use alpha_proof.Accounting.Check.Sound.{
  IsValid, assert_portfolio-IsValid, IsValid-assert_portfolio, Balanced,
}
use alpha_proof.Accounting.Conservation.Receipts.{IsValid-Balanced}
use alpha_proof.Accounting.Apply.{Hasher, apply_receipt}
use alpha_proof.Accounting.Apply.Once.{apply_receipt-Logged}
use alpha_proof.Accounting.Replay.{ReplayResult, after_serialization, replay_from, replay}

-- Reading a state back after each receipt changes no replay: each state is valid already.
replay_from-serialize :
    (h : Hasher) (rs : List Receipt) (x : ReplayResult)
    → replay_from h true rs x ≡ replay_from h false rs x
unfolding replay_from after_serialization
replay_from-serialize h [] x = refl
replay_from-serialize h (r ∷ rs) x = elim (Result-cases (apply_receipt h x.state r)) [
  | inl (s, e) ↦
      let v = (apply_receipt-Logged h x.state r e).0 in
      rw (e, IsValid-assert_portfolio s v) (replay_from-serialize h rs _)
  | inr (code, e) ↦ rw e
]

-- A replay gives the same result, error or not, whether states are serialized in between or not.
pub replay-serialize :
    (h : Hasher) (s : Portfolio) (rs : List Receipt) → replay h s rs true ≡ replay h s rs false
unfolding replay
replay-serialize h s rs = elim (Result-cases (assert_portfolio s)) [
  | inl (t, e) ↦ rw e (replay_from-serialize h rs _)
  | inr (code, e) ↦ rw e
]

-- A replay may be cut anywhere and taken up from the state and the hashes reached.
pub replay_from-append :
    (h : Hasher) (b : Bool) (rs qs : List Receipt) (x : ReplayResult)
    → replay_from h b (rs ++ qs) x ≡ (replay_from h b rs x >>= replay_from h b qs)
unfolding replay_from
replay_from-append h b [] qs x = refl
replay_from-append h b (r ∷ rs) qs x = elim (Result-cases (apply_receipt h x.state r)) [
  | inl (s, e) ↦ rw e (elim (Result-cases (after_serialization b s)) [
    | inl (t, e₁) ↦ rw e₁ (replay_from-append h b rs qs _)
    | inr (code, e₁) ↦ rw e₁
  ])
  | inr (code, e) ↦ rw e
]

-- What a replay has reached after a number of receipts: a valid state, and a hash for the initial
-- state and each later one, the last of which is the state's.
record Reached (h : Hasher) (n : ℕ) (x : ReplayResult) : Type 0 where
  valid : IsValid x.state
  count : length x.state_hashes ≡ suc n
  last : get_elem? x.state_hashes n ≡ some (h.portfolio_hash x.state)

Reached-next :
    (h : Hasher) (n : ℕ) (x : ReplayResult) (r : Receipt) {t : Portfolio}
    → Reached h n x
    → apply_receipt h x.state r ≡ ok t
    → Reached h
        (suc n)
        (record { state = t; state_hashes = push x.state_hashes (h.portfolio_hash t) })
Reached-next h n x r {t} v applied = record {
  valid = (apply_receipt-Logged h x.state r applied).0;
  count = length-append x.state_hashes _ ∙ omega (arith, v.count);
  last =
      ap (get_elem? (push x.state_hashes (h.portfolio_hash t))) (sym v.count)
      ∙ get_elem?-last x.state_hashes (h.portfolio_hash t);
}

replay_from-Reached :
    (h : Hasher) (n : ℕ) (rs : List Receipt) (x : ReplayResult) {y : ReplayResult}
    → Reached h n x
    → replay_from h false rs x ≡ ok y
    → Reached h (n + length rs) y
unfolding replay_from after_serialization
replay_from-Reached h n [] x v e = subst₂ (Reached h) (omega arith) (ok-injective e) v
replay_from-Reached h n (r ∷ rs) x {y} v e =
    >>=-elim (apply_receipt h x.state r) _ e λ s applied e₁.
      subst (λ m. Reached h m y) (omega arith)
        (replay_from-Reached h (suc n) rs _ (Reached-next h n x r v applied) e₁)

-- The hashes that are there stay.
replay_from-kept :
    (h : Hasher) (rs : List Receipt) (x : ReplayResult) (k hash : ℕ) {y : ReplayResult}
    → get_elem? x.state_hashes k ≡ some hash
    → replay_from h false rs x ≡ ok y
    → get_elem? y.state_hashes k ≡ some hash
unfolding replay_from after_serialization
replay_from-kept h [] x k hash at e =
    ap (λ z. get_elem? z.state_hashes k) (sym (ok-injective e)) ∙ at
replay_from-kept h (r ∷ rs) x k hash at e =
    >>=-elim (apply_receipt h x.state r) _ e
      λ s applied e₁. replay_from-kept h rs _ k hash (get_elem?-push x.state_hashes k _ at) e₁

-- The place of a receipt in a replay: the replay of the receipts before it, the state that it
-- leads to from there, and the hashes of both states.
pub record Traced (h : Hasher) (s : Portfolio) (before : List Receipt) (r : Receipt) (b : Bool)
    (y : ReplayResult) : Type 0 where
  pub reached : ReplayResult
  pub ran : replay h s before b ≡ ok reached
  pub next : Portfolio
  pub applied : apply_receipt h reached.state r ≡ ok next
  pub valid : IsValid next
  pub balanced : Balanced next
  pub hash_before : get_elem? y.state_hashes (length before) ≡ some (h.portfolio_hash reached.state)
  pub hash_after : get_elem? y.state_hashes (suc (length before)) ≡ some (h.portfolio_hash next)

-- The end of a replay.
pub record Ended (h : Hasher) (n : ℕ) (y : ReplayResult) : Type 0 where
  pub count : length y.state_hashes ≡ suc n
  pub last : get_elem? y.state_hashes n ≡ some (h.portfolio_hash y.state)

replay-Traced_plain :
    (h : Hasher) (s : Portfolio) (before : List Receipt) (r : Receipt) (later : List Receipt)
    {y : ReplayResult}
    → replay h s (before ++ r ∷ later) false ≡ ok y
    → Traced h s before r false y × Ended h (length (before ++ r ∷ later)) y
unfolding replay replay_from after_serialization
replay-Traced_plain h s before r later {y} e = >>=-elim (assert_portfolio s) _ e λ t checked e₁.
    let (same, valid) = assert_portfolio-IsValid s checked in
    let start : ReplayResult = record { state = t; state_hashes = h.portfolio_hash t ∷ [] } in
    let first : Reached h 0 start = record { valid = rw same valid; count = refl; last = refl } in
    let whole = replay_from-Reached h 0 (before ++ r ∷ later) start first e₁ in
    >>=-elim (replay_from h false before start) _
      (sym (replay_from-append h false before (r ∷ later) start) ∙ e₁)
      λ x ran e₂.
        let here = replay_from-Reached h 0 before start first ran in
        let at : Reached h (length before) x = subst (λ m. Reached h m x) (omega arith) here in
        >>=-elim (apply_receipt h x.state r) _ e₂ λ next applied e₃.
          let after = Reached-next h (length before) x r at applied in
          (
            record {
              reached = x;
              ran = rw checked ran;
              next = next;
              applied = applied;
              valid = after.valid;
              balanced = IsValid-Balanced next after.valid;
              hash_before =
                  replay_from-kept h later _ (length before) (h.portfolio_hash x.state)
                    (get_elem?-push x.state_hashes (length before) _ at.last) e₃;
              hash_after =
                  replay_from-kept h later _ (suc (length before)) (h.portfolio_hash next)
                    after.last e₃;
            },
            record {
              count = whole.count ∙ omega arith;
              last =
                  subst (λ m. get_elem? y.state_hashes m ≡ some (h.portfolio_hash y.state))
                    (omega arith) whole.last;
            },
          )

-- In a replay that ends, serialized in between or not, each receipt is accepted in the state that
-- the replay of the ones before it ends in, and leads to a state that is accepted and in balance.
-- The hashes of both states stand at their places, there is one more than there are receipts, and
-- the last is the hash of the state that the replay ends in.
pub replay-Traced :
    (h : Hasher) (s : Portfolio) (before : List Receipt) (r : Receipt) (later : List Receipt)
    (serialize : Bool) {y : ReplayResult}
    → replay h s (before ++ r ∷ later) serialize ≡ ok y
    → Traced h s before r serialize y × Ended h (length (before ++ r ∷ later)) y
replay-Traced h s before r later false e = replay-Traced_plain h s before r later e
replay-Traced h s before r later true {y} e =
    let (traced, ended) =
      replay-Traced_plain h s before r later
        (sym (replay-serialize h s (before ++ r ∷ later)) ∙ e) in
    (
      record {
        reached = traced.reached;
        ran = replay-serialize h s before ∙ traced.ran;
        next = traced.next;
        applied = traced.applied;
        valid = traced.valid;
        balanced = traced.balanced;
        hash_before = traced.hash_before;
        hash_after = traced.hash_after;
      },
      ended,
    )
