-- ===== src/Base/Sorted.antt =====
-- Lists sorted by a key, and searched.
use Prim.Native.Nat.{ℕ}
use mathlib.Core.Path.{◌≡◌, refl, ap, ◌∙◌}
use mathlib.Core.Bool.{Bool, true, ◌&&◌}
use mathlib.Core.Option.{some}
use mathlib.Core.List.{List, [], ◌∷◌}
use native.Mathlib.Omega.{arith}
use alpha_proof.Base.Tests.{◌==◌, leb, if◌then◌else◌}
use alpha_proof.Base.Lists.{find, insert_by, sort_by}

module _ {ℓ} {A : Type ℓ} (key : A → ℕ) where
  abbrev starts_from : ℕ → List A → Bool
  starts_from k [] = true
  starts_from k (x ∷ xs) = leb k (key x)

  abbrev is_ascending : List A → Bool
  is_ascending [] = true
  is_ascending (x ∷ xs) = starts_from (key x) xs && is_ascending xs

  insert_by-starts_from :
      (k : ℕ) (x : A) (xs : List A)
      → leb k (key x) ≡ true
      → starts_from k xs ≡ true
      → starts_from k (insert_by key x xs) ≡ true
  insert_by-starts_from k x [] a b = a
  insert_by-starts_from k x (y ∷ ys) a b = ground (arith, a, b)

  insert_by-ascending :
      (x : A) (xs : List A) → is_ascending xs ≡ true → is_ascending (insert_by key x xs) ≡ true
  insert_by-ascending x [] h = refl
  insert_by-ascending x (y ∷ ys) h =
      ground (arith, insert_by-ascending x ys, insert_by-starts_from (key y) x ys)

  sort_by-ascending : (xs : List A) → is_ascending (sort_by key xs) ≡ true
  sort_by-ascending [] = refl
  sort_by-ascending (x ∷ xs) = insert_by-ascending x (sort_by key xs) (sort_by-ascending xs)

  insert_by-first :
      (x : A) (xs : List A) → starts_from (key x) xs ≡ true → insert_by key x xs ≡ x ∷ xs
  insert_by-first x [] h = refl
  insert_by-first x (y ∷ ys) h = rw h refl

  ascending-sort_by : (xs : List A) → is_ascending xs ≡ true → sort_by key xs ≡ xs
  ascending-sort_by [] h = refl
  ascending-sort_by (x ∷ xs) h =
      ap (insert_by key x) (ascending-sort_by xs (ground (arith, h)))
      ∙ insert_by-first x xs (ground (arith, h))

  pub sort_by-sort_by : (xs : List A) → sort_by key (sort_by key xs) ≡ sort_by key xs
  sort_by-sort_by xs = ascending-sort_by (sort_by key xs) (sort_by-ascending xs)

  find-insert_by :
      (k : ℕ) (x : A) (xs : List A)
      → find (λ y. key y == k) (insert_by key x xs) ≡ find (λ y. key y == k) (x ∷ xs)
  find-insert_by k x [] = refl
  find-insert_by k x (y ∷ ys) = ground (arith, find-insert_by k x ys)

  pub find-sort_by :
      (k : ℕ) (xs : List A) → find (λ y. key y == k) (sort_by key xs) ≡ find (λ y. key y == k) xs
  find-sort_by k [] = refl
  find-sort_by k (x ∷ xs) =
      find-insert_by k x (sort_by key xs)
      ∙ ap (λ o. if key x == k then some x else o) (find-sort_by k xs)
