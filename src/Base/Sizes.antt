-- ===== src/Base/Sizes.antt =====
-- The sizes of sets, of images and of sorted lists.
use Prim.Native.Nat.{ℕ, suc, ◌+◌}
use mathlib.Core.Path.{◌≡◌, refl, ap}
use mathlib.Core.Bool.{Bool, true, false, not}
use mathlib.Core.List.{List, [], ◌∷◌, map}
use native.Mathlib.Omega.{arith}
use alpha_proof.Base.Tests.{==_iff}
use alpha_proof.Base.Lists.{length, all, includes, distinct, new_set, sort_by, insert_by}

-- Values that are new and each stand once are all kept.
outside : List ℕ → List ℕ → Bool
outside seen = all (λ x. not (includes x seen))

outside-cons :
    (x : ℕ) (seen xs : List ℕ)
    → includes x xs ≡ false
    → outside seen xs ≡ true
    → outside (x ∷ seen) xs ≡ true
unfolding outside
outside-cons x seen [] a o = refl
outside-cons x seen (y ∷ ys) a o = ground (arith, ==_iff x y, outside-cons x seen ys)

length-new_set :
    (seen xs : List ℕ)
    → outside seen xs ≡ true
    → distinct xs ≡ true
    → length (new_set seen xs) ≡ length xs
unfolding outside
length-new_set seen [] o d = refl
length-new_set seen (x ∷ xs) o d =
    ground (arith, outside-cons x seen xs, length-new_set (x ∷ seen) xs)

outside_nothing : (xs : List ℕ) → outside [] xs ≡ true
unfolding outside
outside_nothing [] = refl
outside_nothing (x ∷ xs) = outside_nothing xs

pub length-map {ℓ} : {A : Type ℓ} (f : A → ℕ) (xs : List A) → length (map f xs) ≡ length xs
length-map f [] = refl
length-map f (x ∷ xs) = ap suc (length-map f xs)

length-insert_by {ℓ} :
    {A : Type ℓ} (key : A → ℕ) (x : A) (xs : List A) → length (insert_by key x xs) ≡ length xs + 1
length-insert_by key x [] = refl
length-insert_by key x (y ∷ ys) = ground (arith, length-insert_by key x ys)

pub length-sort_by {ℓ} :
    {A : Type ℓ} (key : A → ℕ) (xs : List A) → length (sort_by key xs) ≡ length xs
length-sort_by key [] = refl
length-sort_by key (x ∷ xs) =
    omega (arith, length-insert_by key x (sort_by key xs), length-sort_by key xs)

-- A list whose values each stand once is as long as its set.
pub length-distinct : (xs : List ℕ) → distinct xs ≡ true → length (new_set [] xs) ≡ length xs
length-distinct xs d = length-new_set [] xs (outside_nothing xs) d
