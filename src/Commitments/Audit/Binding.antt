-- ===== src/Commitments/Audit/Binding.antt =====
-- What the hash of the last audit event fixes, and how the chain grows.
-- Code: packages/commitments/src/index.ts (`assertAuditContinuity`, `createAuditEvent`).
use alpha_proof.Base.{
  ◌+◌, ◌≡◌, refl, sym, ap, ◌∙◌, ◌⊎◌, inl, inr, Option, none, some, List, [], ◌∷◌, length, push, ok,
  arith, >>-elim, for_each, ok-injective, eq_of_some,
}
use alpha_proof.Accounting.State.{Hash}
use alpha_proof.Commitments.Hashing.{Hashing}
use alpha_proof.Commitments.Audit.{
  AuditEvent, EventEncoding, check_audit_event, parse_audit_event, audit_event_hash, audit_loop,
  assert_audit_continuity, create_audit_event, previous_hash, previous_sequence,
}
use alpha_proof.Commitments.Audit.Chain.{
  last_event, EventCollision, hash-cases, audit_loop-push, audit_loop-binds, audit_loop-last,
}

for_each-push :
    (es : List AuditEvent) (n : AuditEvent)
    → for_each check_audit_event es ≡ ok tt
    → check_audit_event n ≡ ok tt
    → for_each check_audit_event (push es n) ≡ ok tt
for_each-push [] n h k = rw k refl
for_each-push (x ∷ es) n h k =
    >>-elim (check_audit_event x) _ h λ first rest. rw first (for_each-push es n rest k)

module _ (H : Hashing) (E : EventEncoding) where
  -- What the chain leaves for the next event.
  audit_loop-ends :
      (es : List AuditEvent) {h : Option Hash}
      → audit_loop H E 0 none es ≡ ok h
      → (h ≡ previous_hash H E (last_event es)) × (length es ≡ previous_sequence (last_event es))
  unfolding audit_loop
  audit_loop-ends [] e = (sym (ok-injective e), refl)
  audit_loop-ends (x ∷ es) e =
      let (last, is_last, hash, number) = audit_loop-last H E 0 none x es e in
      rw is_last (hash, omega arith)

  create_audit_event-parts :
      (previous : Option AuditEvent) (input : AuditEvent) {n : AuditEvent}
      → create_audit_event H E previous input ≡ ok n
      → (n.sequence ≡ previous_sequence previous + 1)
        × (n.previous_event_hash ≡ previous_hash H E previous)
        × (check_audit_event n ≡ ok tt)
  unfolding create_audit_event parse_audit_event
  create_audit_event-parts previous input h = ground arith

  -- The event that is created after the last one of a chain prolongs the chain.
  pub create_audit_event-prolongs :
      (es : List AuditEvent) (input : AuditEvent) {n : AuditEvent} {h : Option Hash}
      → assert_audit_continuity H E es ≡ ok h
      → create_audit_event H E (last_event es) input ≡ ok n
      → assert_audit_continuity H E (push es n) ≡ ok (some (audit_event_hash H E n))
  unfolding assert_audit_continuity
  create_audit_event-prolongs es input {n} chain created =
      >>-elim (for_each check_audit_event es) _ chain λ parsed loop.
        let (sequence, previous, fits) = create_audit_event-parts (last_event es) input created in
        let (hash, count) = audit_loop-ends es loop in
        rw (for_each-push es n parsed fits)
          (audit_loop-push H E 0 none es n loop (omega arith) (previous ∙ sym hash))

  audit_loop-same_length :
      (es fs : List AuditEvent) {h : Option Hash}
      → audit_loop H E 0 none es ≡ ok h
      → audit_loop H E 0 none fs ≡ ok h
      → (length es ≡ length fs) ⊎ EventCollision H E
  audit_loop-same_length [] [] e f = inl refl
  audit_loop-same_length [] (y ∷ fs) e f =
      let (last, is_last, hash, number) = audit_loop-last H E 0 none y fs f in
      absurd (cc (hash, (audit_loop-ends [] e).0))
  audit_loop-same_length (x ∷ es) [] e f =
      let (last, is_last, hash, number) = audit_loop-last H E 0 none x es e in
      absurd (cc (hash, (audit_loop-ends [] f).0))
  audit_loop-same_length (x ∷ es) (y ∷ fs) e f =
      let (last, is_last, hash, number) = audit_loop-last H E 0 none x es e in
      let (last', is_last', hash', number') = audit_loop-last H E 0 none y fs f in
      elim (hash-cases H E last last' (eq_of_some (sym hash ∙ hash'))) [
        | inl same ↦ inl (omega (arith, number, number', ap (λ z. z.sequence) same))
        | inr c ↦ inr c
      ]

  -- Two chains that end with one hash are the same chain, whatever their lengths, or two different
  -- events have one hash.
  pub assert_audit_continuity-binds :
      (es fs : List AuditEvent) {h : Option Hash}
      → assert_audit_continuity H E es ≡ ok h
      → assert_audit_continuity H E fs ≡ ok h
      → (es ≡ fs) ⊎ EventCollision H E
  unfolding assert_audit_continuity
  assert_audit_continuity-binds es fs first second =
      >>-elim (for_each check_audit_event es) _ first λ _ e.
        >>-elim (for_each check_audit_event fs) _ second λ _ f.
          elim (audit_loop-same_length es fs e f) [
            | inl l ↦ elim (audit_loop-binds H E 0 none none es fs e f l) [
              | inl both ↦ inl both.1
              | inr c ↦ inr c
            ]
            | inr c ↦ inr c
          ]
