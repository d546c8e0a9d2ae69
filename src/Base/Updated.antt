-- ===== src/Base/Updated.antt =====
-- Lists after an update of one item or with an item more at the end.
use Prim.Native.Nat.{ℕ, zero, suc}
use mathlib.Core.Path.{◌≡◌, refl}
use mathlib.Core.Logic.{◌≢◌}
use mathlib.Core.Bool.{Bool, true, ◌&&◌}
use mathlib.Core.Option.{some}
use mathlib.Core.List.{List, [], ◌∷◌, map}
use native.Mathlib.Omega.{arith}
use alpha_proof.Base.Tests.{◌==◌, leb, if◌then◌else◌, ==_iff}
use alpha_proof.Base.Lists.{
  get_elem?, length, find, all, filter, push, update_first, insert_by, sort_by,
}

module _ {ℓ} {A : Type ℓ} (key : A → ℕ) (g : A → A) (keeps : (x : A) → key (g x) ≡ key x) where
  pub map-update_first : (p : A → Bool) (xs : List A) → map key (update_first p g xs) ≡ map key xs
  map-update_first p [] = refl
  map-update_first p (x ∷ xs) = ground (arith, keeps x, map-update_first p xs)

  pub find-update_other :
      (i k : ℕ) (xs : List A)
      → k ≢ i
      → find (λ y. key y == i) (update_first (λ y. key y == k) g xs) ≡ find (λ y. key y == i) xs
  find-update_other i k [] other = refl
  find-update_other i k (x ∷ xs) other =
      ground (arith, keeps x, ==_iff (key x) k, ==_iff (key x) i, find-update_other i k xs other)

  pub find-update_same :
      (k : ℕ) (xs : List A) (x : A)
      → find (λ y. key y == k) xs ≡ some x
      → find (λ y. key y == k) (update_first (λ y. key y == k) g xs) ≡ some (g x)
  find-update_same k [] x e = ground arith
  find-update_same k (y ∷ ys) x e = ground (arith, keeps y, find-update_same k ys x)

module _ {ℓ} {A : Type ℓ} where
  pub find-kept :
      (p : A → Bool) (xs : List A) (x r : A) → find p xs ≡ some r → find p (push xs x) ≡ some r
  find-kept p [] x r h = ground arith
  find-kept p (y ∷ ys) x r h = ground (arith, find-kept p ys x r)

  pub filter-push :
      (p : A → Bool) (xs : List A) (x : A)
      → filter p (push xs x) ≡ (if p x then push (filter p xs) x else filter p xs)
  filter-push p [] x = ground arith
  filter-push p (y ∷ ys) x = ground (arith, filter-push p ys x)

  pub all-push : (p : A → Bool) (xs : List A) (x : A) → all p (push xs x) ≡ (all p xs && p x)
  all-push p [] x = ground arith
  all-push p (y ∷ ys) x = ground (arith, all-push p ys x)

  pub all-implies :
      (p q : A → Bool) (xs : List A)
      → ((x : A) → p x ≡ true → q x ≡ true)
      → all p xs ≡ true
      → all q xs ≡ true
  all-implies p q [] f h = refl
  all-implies p q (x ∷ xs) f h = ground (arith, f x, all-implies p q xs f)

  insert_by-push :
      (key : A → ℕ) (y : A) (xs : List A) (x : A)
      → leb (key y) (key x) ≡ true
      → insert_by key y (push xs x) ≡ push (insert_by key y xs) x
  insert_by-push key y [] x h = ground arith
  insert_by-push key y (z ∷ zs) x h = ground (arith, insert_by-push key y zs x h)

  -- An item whose key is not below the others' stays at the end.
  pub sort_by-push :
      (key : A → ℕ) (xs : List A) (x : A)
      → all (λ y. leb (key y) (key x)) xs ≡ true
      → sort_by key (push xs x) ≡ push (sort_by key xs) x
  sort_by-push key [] x h = refl
  sort_by-push key (y ∷ ys) x h =
      rw (sort_by-push key ys x (ground arith))
        (insert_by-push key y (sort_by key ys) x (ground arith))

pub map-push {ℓ κ} :
    {A : Type ℓ} {B : Type κ} (f : A → B) (xs : List A) (x : A)
    → map f (push xs x) ≡ push (map f xs) (f x)
map-push f [] x = refl
map-push f (y ∷ ys) x = cc (map-push f ys x)

module _ {ℓ} {A : Type ℓ} where
  -- An item more at the end leaves the others at their places.
  pub get_elem?-push :
      (xs : List A) (k : ℕ) (x : A) {v : A}
      → get_elem? xs k ≡ some v
      → get_elem? (push xs x) k ≡ some v
  get_elem?-push [] k x h = absurd (cc h)
  get_elem?-push (y ∷ ys) zero x h = h
  get_elem?-push (y ∷ ys) (suc k) x h = get_elem?-push ys k x h

  pub get_elem?-last : (xs : List A) (x : A) → get_elem? (push xs x) (length xs) ≡ some x
  get_elem?-last [] x = refl
  get_elem?-last (y ∷ ys) x = get_elem?-last ys x
