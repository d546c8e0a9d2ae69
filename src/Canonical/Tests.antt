-- ===== src/Canonical/Tests.antt =====
-- The canonical text of an object, written in either order.
-- Code: packages/domain/src/index.ts.
use alpha_proof.Base.{ℕ, arith, ◌≡◌, ◌≢◌, refl, [], ◌∷◌, ok, pos}
use alpha_proof.Canonical.{
  Text, Value, Members, lone_surrogate, escape_unit, escaped, quote, digits_before, digits,
  signed_digits, encode, canonical_json,
}
use alpha_proof.Canonical.Reordered.{Reorders, MembersReorder, canonical_json-Reorders}

-- {"b":2,"a":"1"}
abbrev b_first : Value
b_first = Value.object (
    Members.member (98 ∷ []) (Value.number (pos 2))
      (Members.member (97 ∷ []) (Value.text (49 ∷ [])) Members.no_members))

abbrev a_first : Value
a_first = Value.object (
    Members.member (97 ∷ []) (Value.text (49 ∷ []))
      (Members.member (98 ∷ []) (Value.number (pos 2)) Members.no_members))

-- {"a":"1","b":2}
abbrev canonical_text : Text
canonical_text = 123 ∷ 34 ∷ 97 ∷ 34 ∷ 58 ∷ 34 ∷ 49 ∷ 34 ∷ 44 ∷ 34 ∷ 98 ∷ 34 ∷ 58 ∷ 50 ∷ 125 ∷ []

canonical-a_first : canonical_json a_first ≡ ok canonical_text
unfolding lone_surrogate escape_unit escaped quote digits_before digits signed_digits encode
    canonical_json
canonical-a_first = refl

abbrev key_of : ℕ → Text
key_of unit = unit ∷ []

keys-apart : key_of 97 ≢ key_of 98
keys-apart same = ground arith

canonical_json-Reorders_example : canonical_json b_first ≡ ok canonical_text
canonical_json-Reorders_example =
    canonical_json-Reorders (Reorders.object (MembersReorder.swap keys-apart)) canonical-a_first
