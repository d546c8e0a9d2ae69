-- ===== src/Canonical/Texts.antt =====
-- The order of texts, and members sorted by it.
-- Code: packages/domain/src/index.ts (`canonicalJson`, its `sort`).
use alpha_proof.Base.{◌≡◌, ◌≢◌, refl, true, ◌⊎◌, inl, inr, List, [], ◌∷◌, arith}
use alpha_proof.Canonical.{Text, leb_text, Encoded, insert_member}

leb_text-total : (a b : Text) → (leb_text a b ≡ true) ⊎ (leb_text b a ≡ true)
leb_text-total [] b = inl refl
leb_text-total (x ∷ xs) [] = inr refl
leb_text-total (x ∷ xs) (y ∷ ys) = ground (arith, leb_text-total xs ys)

leb_text-antisym : (a b : Text) → leb_text a b ≡ true → leb_text b a ≡ true → a ≡ b
leb_text-antisym [] [] h l = refl
leb_text-antisym [] (y ∷ ys) h l = absurd (cc l)
leb_text-antisym (x ∷ xs) [] h l = absurd (cc h)
leb_text-antisym (x ∷ xs) (y ∷ ys) h l = ground (arith, leb_text-antisym xs ys)

leb_text_trans : (a b c : Text) → leb_text a b ≡ true → leb_text b c ≡ true → leb_text a c ≡ true
leb_text_trans [] b c h l = refl
leb_text_trans (x ∷ xs) [] c h l = absurd (cc h)
leb_text_trans (x ∷ xs) (y ∷ ys) [] h l = absurd (cc l)
leb_text_trans (x ∷ xs) (y ∷ ys) (z ∷ zs) h l = ground (arith, leb_text_trans xs ys zs)

-- Two members with different keys may be put in in either order.
pub insert_member-insert_member :
    (x y : Encoded) (zs : List Encoded)
    → x.key ≢ y.key
    → insert_member x (insert_member y zs) ≡ insert_member y (insert_member x zs)
insert_member-insert_member x y [] apart =
    ground (arith, leb_text-total x.key y.key, leb_text-antisym x.key y.key)
insert_member-insert_member x y (z ∷ zs) apart = ground (
  arith,
  leb_text-total x.key y.key,
  leb_text-antisym x.key y.key,
  leb_text-total x.key z.key,
  leb_text-total y.key z.key,
  leb_text_trans x.key y.key z.key,
  leb_text_trans y.key x.key z.key,
  insert_member-insert_member x y zs apart,
)
