-- ===== src/Canonical.antt =====
-- Canonical JSON: the text that contents are hashed by.
-- A value is a finite tree, so the cycles that the code refuses do not occur; what is no plain JSON
-- (a fraction, a hole, an accessor, an object with a prototype) is `foreign`.
-- Code: packages/domain/src/index.ts (`canonicalJson`).
pub mod Texts
pub mod Reordered
mod Tests
use alpha_proof.Base.{
  ℕ, zero, suc, ◌+◌, ◌-◌, ◌*◌, ◌/◌, ◌%◌, ◌^◌, Bool, true, false, not, ◌&&◌, ◌||◌, List, [], ◌∷◌,
  ◌++◌, ltb, leb, ◌==◌, if◌then◌else◌, invalid_canonical_value, Result, ok, err, ◌>>=◌, ◌>>◌,
  throw_if, ℤ, pos, negsuc, pos_part, neg_part,
}

-- The UTF-16 code units of a text.
abbrev pub Text : Type 0
Text = List ℕ

mutual
  pub data Value : Type 0 where
    null : Value
    text : Text → Value
    boolean : Bool → Value
    number : ℤ → Value
    foreign : Value
    array : Values → Value
    object : Members → Value

  pub data Values : Type 0 where
    no_values : Values
    value : Value → Values → Values

  pub data Members : Type 0 where
    no_members : Members
    member : Text → Value → Members → Members

abbrev pub is_high : ℕ → Bool
is_high unit = leb 55296 unit && ltb unit 56320

abbrev pub is_low : ℕ → Bool
is_low unit = leb 56320 unit && ltb unit 57344

-- `/[\uD800-\uDFFF]/u`: a surrogate that is not in a pair.
unfoldable pub lone_surrogate : Text → Bool
lone_surrogate [] = false
lone_surrogate (unit ∷ []) = is_high unit || is_low unit
lone_surrogate (unit ∷ next ∷ units) =
    let paired = lone_surrogate units in
    let single = lone_surrogate (next ∷ units) in
    if is_high unit && is_low next then paired else is_high unit || is_low unit || single

abbrev pub hex_digit : ℕ → ℕ
hex_digit n = if ltb n 10 then 48 + n else 87 + n

-- How `JSON.stringify` writes a code unit of a text.
unfoldable pub escape_unit : ℕ → Text
escape_unit unit =
    if unit == 34
    then 92 ∷ 34 ∷ []
    else if unit == 92
    then 92 ∷ 92 ∷ []
    else if unit == 8
    then 92 ∷ 98 ∷ []
    else if unit == 9
    then 92 ∷ 116 ∷ []
    else if unit == 10
    then 92 ∷ 110 ∷ []
    else if unit == 12
    then 92 ∷ 102 ∷ []
    else if unit == 13
    then 92 ∷ 114 ∷ []
    else if ltb unit 32
    then 92 ∷ 117 ∷ 48 ∷ 48 ∷ hex_digit (unit / 16) ∷ hex_digit (unit % 16) ∷ []
    else unit ∷ []

unfoldable pub escaped : Text → Text
escaped [] = []
escaped (unit ∷ units) = escape_unit unit ++ escaped units

unfoldable pub quote : Text → Text
quote units = 34 ∷ escaped units ++ 34 ∷ []

-- Decimal digits, in front of those of the lower places; a number has fewer digits than itself
-- and one.
unfoldable pub digits_before : ℕ → ℕ → Text → Text
digits_before zero n lower = lower
digits_before (suc fuel) n lower =
    let more = digits_before fuel (n / 10) ((48 + n % 10) ∷ lower) in
    if ltb n 10 then (48 + n) ∷ lower else more

unfoldable pub digits : ℕ → Text
digits n = digits_before (n + 1) n []

unfoldable pub signed_digits : ℤ → Text
signed_digits (pos n) = digits n
signed_digits (negsuc n) = 45 ∷ digits (suc n)

-- `Number.isSafeInteger`, of an integer.
abbrev pub is_safe : ℤ → Bool
is_safe n = ltb (pos_part n + neg_part n) (2 ^ 53)

-- `a <= b` on texts, by code units, as `sort` compares them.
abbrev pub leb_text : Text → Text → Bool
leb_text [] b = true
leb_text (x ∷ xs) [] = false
leb_text (x ∷ xs) (y ∷ ys) = ltb x y || (x == y && leb_text xs ys)

-- A member's key and its encoded text.
pub record Encoded : Type 0 where
  pub key : Text
  pub entry : Text

abbrev pub insert_member : Encoded → List Encoded → List Encoded
insert_member x [] = x ∷ []
insert_member x (y ∷ ys) = if leb_text x.key y.key then x ∷ y ∷ ys else y ∷ insert_member x ys

abbrev pub sort_members : List Encoded → List Encoded
sort_members [] = []
sort_members (x ∷ xs) = insert_member x (sort_members xs)

-- `join(',')`
abbrev pub join_entries : List Encoded → Text
join_entries [] = []
join_entries (x ∷ []) = x.entry
join_entries (x ∷ y ∷ ys) = x.entry ++ (44 ∷ join_entries (y ∷ ys))

abbrev pub encode_text : Text → Result Text
encode_text units = do throw_if (lone_surrogate units) invalid_canonical_value; ok (quote units)

-- Sorting the encoded members by their keys gives what encoding them in the order of the keys does.
unfoldable mutual
  pub encode : Value → Result Text
  encode Value.null = ok (110 ∷ 117 ∷ 108 ∷ 108 ∷ [])
  encode (Value.text units) = encode_text units
  encode (Value.boolean true) = ok (116 ∷ 114 ∷ 117 ∷ 101 ∷ [])
  encode (Value.boolean false) = ok (102 ∷ 97 ∷ 108 ∷ 115 ∷ 101 ∷ [])
  encode (Value.number n) = do
    throw_if (not (is_safe n)) invalid_canonical_value
    ok (signed_digits n)
  encode Value.foreign = err invalid_canonical_value
  encode (Value.array values) = do
    entries ← encode_values values
    ok (91 ∷ join_entries entries ++ 93 ∷ [])
  encode (Value.object members) = do
    entries ← encode_members members
    ok (123 ∷ join_entries (sort_members entries) ++ 125 ∷ [])

  pub encode_values : Values → Result (List Encoded)
  encode_values Values.no_values = ok []
  encode_values (Values.value item items) = do
    entry ← encode item
    entries ← encode_values items
    ok (record { key = []; entry = entry } ∷ entries)

  pub encode_members : Members → Result (List Encoded)
  encode_members Members.no_members = ok []
  encode_members (Members.member key item items) = do
    name ← encode_text key
    entry ← encode item
    entries ← encode_members items
    ok (record { key = key; entry = name ++ (58 ∷ entry) } ∷ entries)

unfoldable pub canonical_json : Value → Result Text
canonical_json v = encode v
