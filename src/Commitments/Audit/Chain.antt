-- ===== src/Commitments/Audit/Chain.antt =====
-- The growth of the chain of audit events, and what two chains with one last hash have in common.
-- Code: packages/commitments/src/index.ts (`assertAuditContinuity`, `createAuditEvent`).
use alpha_proof.Base.{
  ℕ, suc, ◌+◌, ◌≡◌, ◌≢◌, refl, sym, ap, ◌∙◌, ◌⊎◌, inl, inr, Bool, true, false, not, ◌&&◌, Option,
  none, some, List, [], ◌∷◌, Bool-cases, ◌==◌, ◌!=◌, opt_eq, length, push, ok, arith, subst,
  >>-elim, throw_if, throw_if-ok, batch_continuity, ok-injective, eq_of_some,
}
use mathlib.Core.Path.{ap₂}
use alpha_proof.Accounting.State.{Hash, provenance_eq}
use alpha_proof.Commitments.Hashing.{Hashing}
use alpha_proof.Commitments.Audit.{AuditEvent, EventEncoding, audit_event_hash, audit_loop}

-- The last event of a list.
abbrev pub last_event : List AuditEvent → Option AuditEvent
last_event [] = none
last_event (e ∷ []) = some e
last_event (e ∷ f ∷ es) = last_event (f ∷ es)

pub !=→≡ : (a b : ℕ) → (a != b) ≡ false → a ≡ b
!=→≡ a b h = ground arith

≡→!= : (a b : ℕ) → a ≡ b → (a != b) ≡ false
≡→!= a b h = ground arith

opt_eq→≡ : (a b : Option Hash) → not (opt_eq a b) ≡ false → a ≡ b
opt_eq→≡ none none h = refl
opt_eq→≡ (some a) (some b) h = ground arith
opt_eq→≡ a b h = ground arith

opt_eq_refl : (a : Option Hash) → not (opt_eq a a) ≡ false
opt_eq_refl none = refl
opt_eq_refl (some a) = ground arith

-- Two different events with one hash.
pub record EventCollision (H : Hashing) (E : EventEncoding) : Type 0 where
  pub first : AuditEvent
  pub second : AuditEvent
  pub different : first ≢ second
  pub same : audit_event_hash H E first ≡ audit_event_hash H E second

abbrev event_eq : AuditEvent → AuditEvent → Bool
event_eq a b =
    a.experiment_id == b.experiment_id
    && a.sequence == b.sequence
    && a.object_type == b.object_type
    && a.occurred_at == b.occurred_at
    && provenance_eq a.result_provenance b.result_provenance
    && a.object_schema_version == b.object_schema_version
    && a.content_hash == b.content_hash
    && opt_eq a.previous_event_hash b.previous_event_hash
    && opt_eq a.supersedes_content_hash b.supersedes_content_hash

event_eq→≡ : (a b : AuditEvent) → event_eq a b ≡ true → a ≡ b
event_eq→≡ a b h = ground arith

event_eq_refl : (a : AuditEvent) → event_eq a a ≡ true
event_eq_refl a = ground arith

module _ (H : Hashing) (E : EventEncoding) where
  pub hash-cases :
      (a b : AuditEvent)
      → audit_event_hash H E a ≡ audit_event_hash H E b
      → (a ≡ b) ⊎ EventCollision H E
  hash-cases a b same = elim (Bool-cases (event_eq a b)) [
    | inl e ↦ inl (event_eq→≡ a b e)
    | inr e ↦ inr (record {
      first = a;
      second = b;
      different = λ k. absurd (cc (e, event_eq_refl a, ap (event_eq a) k));
      same = same;
    })
  ]

  -- One round of the loop, taken apart.
  pub audit_loop-cons :
      (i : ℕ) (p : Option Hash) (x : AuditEvent) (es : List AuditEvent) {h : Option Hash}
      → audit_loop H E i p (x ∷ es) ≡ ok h
      → (x.sequence ≡ i + 1)
        × (x.previous_event_hash ≡ p)
        × (audit_loop H E (suc i) (some (audit_event_hash H E x)) es ≡ ok h)
  unfolding audit_loop
  audit_loop-cons i p x es e =
      >>-elim (throw_if (x.sequence != i + 1) batch_continuity) _ e λ numbered e₁.
        >>-elim (throw_if (not (opt_eq x.previous_event_hash p)) batch_continuity) _ e₁ λ linked e₂.
          (!=→≡ _ _ (throw_if-ok _ _ numbered), opt_eq→≡ _ _ (throw_if-ok _ _ linked), e₂)

  -- And put together.
  audit_loop-of :
      (i : ℕ) (x : AuditEvent) (es : List AuditEvent) {p h : Option Hash}
      → x.sequence ≡ i + 1
      → x.previous_event_hash ≡ p
      → audit_loop H E (suc i) (some (audit_event_hash H E x)) es ≡ ok h
      → audit_loop H E i p (x ∷ es) ≡ ok h
  unfolding audit_loop
  audit_loop-of i x es {p} s k e =
      let numbered = ≡→!= x.sequence (i + 1) s in
      let linked =
        subst (λ z. not (opt_eq x.previous_event_hash z) ≡ false) k
          (opt_eq_refl x.previous_event_hash) in
      rw (numbered, linked) e

  pub audit_loop-push :
      (i : ℕ) (p : Option Hash) (es : List AuditEvent) (n : AuditEvent) {h : Option Hash}
      → audit_loop H E i p es ≡ ok h
      → n.sequence ≡ i + length es + 1
      → n.previous_event_hash ≡ h
      → audit_loop H E i p (push es n) ≡ ok (some (audit_event_hash H E n))
  unfolding audit_loop
  audit_loop-push i p [] n e s k =
      audit_loop-of i n [] (omega arith) (k ∙ sym (ok-injective e)) refl
  audit_loop-push i p (x ∷ es) n e s k =
      let (numbered, linked, rest) = audit_loop-cons i p x es e in
      audit_loop-of i x (push es n) numbered linked
        (audit_loop-push (suc i) (some (audit_event_hash H E x)) es n rest (omega arith) k)

  pub audit_loop-binds :
      (i : ℕ) (p q : Option Hash) (es fs : List AuditEvent) {h : Option Hash}
      → audit_loop H E i p es ≡ ok h
      → audit_loop H E i q fs ≡ ok h
      → length es ≡ length fs
      → ((p ≡ q) × (es ≡ fs)) ⊎ EventCollision H E
  unfolding audit_loop
  audit_loop-binds i p q [] [] e f l = inl (ok-injective (e ∙ sym f), refl)
  audit_loop-binds i p q [] (y ∷ fs) e f l = absurd (omega arith)
  audit_loop-binds i p q (x ∷ es) [] e f l = absurd (omega arith)
  audit_loop-binds i p q (x ∷ es) (y ∷ fs) e f l =
      let (_, linked, rest) = audit_loop-cons i p x es e in
      let (_, linked', rest') = audit_loop-cons i q y fs f in
      elim (audit_loop-binds (suc i) _ _ es fs rest rest' (omega arith)) [
        | inl (hashes, tails) ↦ elim (hash-cases x y (eq_of_some hashes)) [
          | inl same ↦ inl (
            sym linked ∙ ap (λ z. z.previous_event_hash) same ∙ linked',
            ap₂ (λ a b. a ∷ b) same tails,
          )
          | inr c ↦ inr c
        ]
        | inr c ↦ inr c
      ]

  pub audit_loop-last :
      (i : ℕ) (p : Option Hash) (x : AuditEvent) (es : List AuditEvent) {h : Option Hash}
      → audit_loop H E i p (x ∷ es) ≡ ok h
      → (last : AuditEvent) × (last_event (x ∷ es) ≡ some last)
        × (h ≡ some (audit_event_hash H E last))
        × (last.sequence ≡ i + length (x ∷ es))
  unfolding audit_loop
  audit_loop-last i p x [] e =
      let (numbered, linked, rest) = audit_loop-cons i p x [] e in
      (x, refl, sym (ok-injective rest), omega arith)
  audit_loop-last i p x (y ∷ es) e =
      let (numbered, linked, rest) = audit_loop-cons i p x (y ∷ es) e in
      let (last, is_last, hash, number) = audit_loop-last (suc i) _ y es rest in
      (last, is_last, hash, omega arith)
