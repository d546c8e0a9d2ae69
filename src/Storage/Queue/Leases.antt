-- ===== src/Storage/Queue/Leases.antt =====
-- What a claim does to the queue, whichever table it is on.
-- Code: packages/storage/src/m3.ts, packages/storage/src/m5.ts.
use alpha_proof.Base.{
  ℕ, ◌≤◌, true, false, Option, none, some, List, [], ◌∷◌, find, ◌==◌, ==_iff, find-update_other,
  find-update_same, map, distinct, includes, any, arith, ◌≡◌, refl, ◌≢◌, ◌⊎◌, inl, inr, subst, sym,
  ◌∙◌,
}
use mathlib.Core.Option.{some-injective}
use alpha_proof.Accounting.State.{Ident, Timestamp}
use alpha_proof.Storage.Queue.{JobState, Lease, runnable, next_row, identity_of, take_row, first_of}

module _ {ℓ} {A : Type ℓ} where
  first_of-cases :
      (lease_of : A → Lease) (row : A) (rest : Option A) {r : A}
      → first_of lease_of row rest ≡ some r
      → (row ≡ r) ⊎ (rest ≡ some r)
  first_of-cases lease_of row none {r} e = inl (ground arith)
  first_of-cases lease_of row (some other) {r} e = ground arith

  next_row-cases :
      (lease_of : A → Lease) (now : Timestamp) (row : A) (rows : List A) {r : A}
      → next_row lease_of now (row ∷ rows) ≡ some r
      → (row ≡ r) × (runnable now (lease_of row) ≡ true) ⊎ (next_row lease_of now rows ≡ some r)
  unfolding next_row
  next_row-cases lease_of now row rows {r} e =
      ground (arith, first_of-cases lease_of row (next_row lease_of now rows))

  find-includes :
      (key : A → ℕ) (k : ℕ) (xs : List A) (x : A)
      → find (λ y. key y == k) xs ≡ some x
      → includes k (map key xs) ≡ true
  find-includes key k [] x e = ground arith
  find-includes key k (y ∷ ys) x e =
      ground (arith, ==_iff (key y) k, ==_iff k (key y), find-includes key k ys x)

  pub next_row-runnable :
      (lease_of : A → Lease) (now : Timestamp) (rows : List A) {row : A}
      → next_row lease_of now rows ≡ some row
      → runnable now (lease_of row) ≡ true
  unfolding next_row
  next_row-runnable lease_of now [] {row} e = ground arith
  next_row-runnable lease_of now (other ∷ rows) {row} e =
      elim (next_row-cases lease_of now other rows e) [
        | inl (same, h) ↦ subst (λ x. runnable now (lease_of x) ≡ true) same h
        | inr h ↦ next_row-runnable lease_of now rows h
      ]

  find-skip :
      (key : A → ℕ) (x : A) (xs : List A) (r : A)
      → distinct (map key (x ∷ xs)) ≡ true
      → find (λ y. key y == key r) xs ≡ some r
      → find (λ y. key y == key r) (x ∷ xs) ≡ some r
  find-skip key x xs r d h = ground (arith, find-includes key (key r) xs r h)

  pub next_row-find :
      (lease_of : A → Lease) (now : Timestamp) (rows : List A) {row : A}
      → distinct (map (identity_of lease_of) rows) ≡ true
      → next_row lease_of now rows ≡ some row
      → find (λ other. identity_of lease_of other == identity_of lease_of row) rows ≡ some row
  unfolding next_row
  next_row-find lease_of now [] {row} d e = ground arith
  next_row-find lease_of now (other ∷ rows) {row} d e =
      elim (next_row-cases lease_of now other rows e) [
        | inl (same, h) ↦
            subst
              (λ x.
                find (λ y. identity_of lease_of y == identity_of lease_of x) (other ∷ rows)
                ≡ some x)
              same (ground arith)
        | inr h ↦
            find-skip (identity_of lease_of) other rows row d
              (next_row-find lease_of now rows (ground arith) h)
      ]

  first_of-some :
      (lease_of : A → Lease) (row : A) (rest : Option A) → first_of lease_of row rest ≢ none
  first_of-some lease_of row none e = ground arith
  first_of-some lease_of row (some other) e = ground arith

  pub next_row-none :
      (lease_of : A → Lease) (now : Timestamp) (rows : List A)
      → next_row lease_of now rows ≡ none
      → any (λ row. runnable now (lease_of row)) rows ≡ false
  unfolding next_row
  next_row-none lease_of now [] e = refl
  next_row-none lease_of now (row ∷ rows) e = ground (
    arith,
    first_of-some lease_of row (next_row lease_of now rows),
    next_row-none lease_of now rows,
  )

-- A row that a worker holds until a time.
pub record Held {ℓ} {A : Type ℓ} (lease_of : A → Lease) (i : Ident) (until : Timestamp)
    (rows : List A) : Type ℓ where
  pub row : A
  pub found : find (λ other. identity_of lease_of other == i) rows ≡ some row
  pub running : (lease_of row).state ≡ JobState.running
  pub leased : (lease_of row).leased_until ≡ some until

module _ {ℓ} {A : Type ℓ} where
  Held-not_runnable :
      (lease_of : A → Lease) (i : Ident) (until now : Timestamp) (rows : List A)
      (v : Held lease_of i until rows)
      → now ≤ until
      → runnable now (lease_of v.row) ≡ false
  unfolding runnable
  Held-not_runnable lease_of i until now rows v h =
      let r = v.running in let l = v.leased in rw (r, l) (ground arith)

  -- The next row is another one.
  pub Held-next_row :
      (lease_of : A → Lease) (i : Ident) (until now : Timestamp) (rows : List A) {row : A}
      → Held lease_of i until rows
      → now ≤ until
      → distinct (map (identity_of lease_of) rows) ≡ true
      → next_row lease_of now rows ≡ some row
      → identity_of lease_of row ≢ i
  Held-next_row lease_of i until now rows {row} v h d e same =
      let f =
        subst (λ k. find (λ other. identity_of lease_of other == k) rows ≡ some row) same
          (next_row-find lease_of now rows d e) in
      let r = next_row-runnable lease_of now rows e in
      let n = Held-not_runnable lease_of i until now rows v h in
      let w = v.found in
      ground
        (arith, subst (λ x. runnable now (lease_of x) ≡ false) (some-injective _ _ (sym w ∙ f)) n)

  pub Held-take_row :
      (lease_of : A → Lease) (g : Timestamp → A → A) (i : Ident) (until later : Timestamp)
      (rows : List A) (row : A)
      → ((x : A) → identity_of lease_of (g later x) ≡ identity_of lease_of x)
      → Held lease_of i until rows
      → identity_of lease_of row ≢ i
      → Held lease_of i until (take_row lease_of g later rows (some row))
  Held-take_row lease_of g i until later rows row keeps v other = record {
    row = v.row;
    found =
        find-update_other (identity_of lease_of) (g later) keeps i (identity_of lease_of row) rows
          other
        ∙ v.found;
    running = v.running;
    leased = v.leased;
  }

  -- A claim that takes a row makes its worker hold it.
  pub Held-taken :
      (lease_of : A → Lease) (g : Timestamp → A → A) (now until : Timestamp) (rows : List A)
      (row : A)
      → ((x : A) → identity_of lease_of (g until x) ≡ identity_of lease_of x)
      → (lease_of (g until row)).state ≡ JobState.running
      → (lease_of (g until row)).leased_until ≡ some until
      → distinct (map (identity_of lease_of) rows) ≡ true
      → next_row lease_of now rows ≡ some row
      → Held lease_of (identity_of lease_of row) until (take_row lease_of g until rows (some row))
  Held-taken lease_of g now until rows row keeps r l d e = record {
    row = g until row;
    found =
        find-update_same (identity_of lease_of) (g until) keeps (identity_of lease_of row) rows row
          (next_row-find lease_of now rows d e);
    running = r;
    leased = l;
  }
