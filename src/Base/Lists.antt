-- ===== src/Base/Lists.antt =====
-- Lists searched and updated by Boolean tests, the way the source uses `find`, `some`, `filter`,
-- `push`, `sort` and a write through an object that `find` returned; and sums over them.
use Prim.Native.Nat.{ℕ, zero, suc, ◌+◌}
use mathlib.Core.Path.{◌≡◌, refl}
use mathlib.Core.Bool.{Bool, true, false, not, ◌&&◌, ◌||◌}
use mathlib.Core.Option.{Option, none, some}
use mathlib.Core.List.{List, [], ◌∷◌, ◌++◌, map}
use native.Mathlib.Omega.{arith}
use alpha_proof.Base.Tests.{◌==◌, ◌!=◌, leb, if◌then◌else◌}

module _ {ℓ} {A : Type ℓ} where
  abbrev pub length : List A → ℕ
  length [] = 0
  length (x ∷ xs) = suc (length xs)

  abbrev pub get_elem? : List A → ℕ → Option A
  get_elem? [] i = none
  get_elem? (x ∷ xs) zero = some x
  get_elem? (x ∷ xs) (suc i) = get_elem? xs i

  abbrev pub find : (A → Bool) → List A → Option A
  find p [] = none
  find p (x ∷ xs) = if p x then some x else find p xs

  abbrev pub any : (A → Bool) → List A → Bool
  any p [] = false
  any p (x ∷ xs) = p x || any p xs

  abbrev pub all : (A → Bool) → List A → Bool
  all p [] = true
  all p (x ∷ xs) = p x && all p xs

  abbrev pub filter : (A → Bool) → List A → List A
  filter p [] = []
  filter p (x ∷ xs) = let rest = filter p xs in if p x then x ∷ rest else rest

  -- A write through the object that `find p` returned.
  abbrev pub update_first : (A → Bool) → (A → A) → List A → List A
  update_first p g [] = []
  update_first p g (x ∷ xs) = if p x then g x ∷ xs else x ∷ update_first p g xs

  abbrev pub push : List A → A → List A
  push xs x = xs ++ x ∷ []

  abbrev pub total_by : (A → ℕ) → List A → ℕ
  total_by f [] = 0
  total_by f (x ∷ xs) = f x + total_by f xs

  abbrev pub insert_by : (A → ℕ) → A → List A → List A
  insert_by key x [] = x ∷ []
  insert_by key x (y ∷ ys) = if leb (key x) (key y) then x ∷ y ∷ ys else y ∷ insert_by key x ys

  -- A stable sort by a key.
  abbrev pub sort_by : (A → ℕ) → List A → List A
  sort_by key [] = []
  sort_by key (x ∷ xs) = insert_by key x (sort_by key xs)

abbrev pub includes : ℕ → List ℕ → Bool
includes k [] = false
includes k (x ∷ xs) = k == x || includes k xs

-- `new Set(values)`, in the order of first occurrence, without the ones in `seen`.
abbrev pub new_set : List ℕ → List ℕ → List ℕ
new_set seen [] = []
new_set seen (x ∷ xs) =
    let rest = new_set (x ∷ seen) xs in
    let same = new_set seen xs in if includes x seen then same else x ∷ rest

-- No key stands twice: `new Set(keys).size === keys.length`.
abbrev pub distinct : List ℕ → Bool
distinct [] = true
distinct (k ∷ ks) = not (includes k ks) && distinct ks

module _ {ℓ} {A : Type ℓ} where
  pub total_by-push :
      (f : A → ℕ) (xs : List A) (x : A) → total_by f (push xs x) ≡ total_by f xs + f x
  total_by-push f [] x = omega arith
  total_by-push f (y ∷ ys) x = omega (arith, total_by-push f ys x)

  pub total_by-update_first :
      (f : A → ℕ) (p : A → Bool) (g : A → A) (xs : List A) (x : A)
      → find p xs ≡ some x
      → total_by f (update_first p g xs) + f x ≡ total_by f xs + f (g x)
  total_by-update_first f p g [] x e = ground arith
  total_by-update_first f p g (y ∷ ys) x e = ground (arith, total_by-update_first f p g ys x)

  total_by-insert_by :
      (f key : A → ℕ) (x : A) (xs : List A) → total_by f (insert_by key x xs) ≡ f x + total_by f xs
  total_by-insert_by f key x [] = refl
  total_by-insert_by f key x (y ∷ ys) = ground (arith, total_by-insert_by f key x ys)

  pub total_by-sort_by : (f key : A → ℕ) (xs : List A) → total_by f (sort_by key xs) ≡ total_by f xs
  total_by-sort_by f key [] = refl
  total_by-sort_by f key (x ∷ xs) =
      omega (arith, total_by-insert_by f key x (sort_by key xs), total_by-sort_by f key xs)

  filter-absent :
      (key : A → ℕ) (k : ℕ) (xs : List A)
      → includes k (map key xs) ≡ false
      → filter (λ y. key y != k) xs ≡ xs
  filter-absent key k [] h = refl
  filter-absent key k (y ∷ ys) h = ground (arith, filter-absent key k ys)

  -- Removing the one entry with a key takes its amount off the sum.
  pub total_by-filter :
      (f key : A → ℕ) (k : ℕ) (xs : List A) (x : A)
      → distinct (map key xs) ≡ true
      → find (λ y. key y == k) xs ≡ some x
      → total_by f (filter (λ y. key y != k) xs) + f x ≡ total_by f xs
  total_by-filter f key k [] x u e = ground arith
  total_by-filter f key k (y ∷ ys) x u e =
      ground (arith, filter-absent key k ys, total_by-filter f key k ys x)

module _ {ℓ} {A : Type ℓ} where
  pub find-push :
      (p : A → Bool) (xs : List A) (x : A)
      → find p xs ≡ none
      → find p (push xs x) ≡ (if p x then some x else none)
  find-push p [] x h = refl
  find-push p (y ∷ ys) x h = ground (arith, find-push p ys x)

  pub length-append : (xs ys : List A) → length (xs ++ ys) ≡ length xs + length ys
  length-append [] ys = omega arith
  length-append (x ∷ xs) ys = omega (arith, length-append xs ys)
