-- ===== src/Canonical/Reordered.antt =====
-- Objects that differ in the order of their members only.
-- Code: packages/domain/src/index.ts (`canonicalJson`).
use alpha_proof.Base.{◌≡◌, ◌≢◌, refl, sym, ap, ◌∙◌, List, ◌∷◌, ◌++◌, ok, ok-injective, >>=-elim}
use alpha_proof.Canonical.{
  Text, Value, Values, Members, Encoded, insert_member, sort_members, encode_text, encode,
  encode_values, encode_members, canonical_json,
}
use alpha_proof.Canonical.Texts.{insert_member-insert_member}

-- One value comes from the other by moving members of objects, at any depth.
mutual
  pub data Reorders : Value → Value → Type 0 where
    same : {v : Value} → Reorders v v
    array : {vs ws : Values} → AllReorder vs ws → Reorders (Value.array vs) (Value.array ws)
    object : {ms ns : Members} → MembersReorder ms ns → Reorders (Value.object ms) (Value.object ns)

  pub data AllReorder : Values → Values → Type 0 where
    values_end : AllReorder Values.no_values Values.no_values
    next_value :
        {v w : Value} {vs ws : Values}
        → Reorders v w
        → AllReorder vs ws
        → AllReorder (Values.value v vs) (Values.value w ws)

  pub data MembersReorder : Members → Members → Type 0 where
    members_end : MembersReorder Members.no_members Members.no_members
    next_member :
        {key : Text} {v w : Value} {ms ns : Members}
        → Reorders v w
        → MembersReorder ms ns
        → MembersReorder (Members.member key v ms) (Members.member key w ns)
    swap :
        {key other : Text} {v w : Value} {ms : Members}
        → key ≢ other
        → MembersReorder
            (Members.member key v (Members.member other w ms))
            (Members.member other w (Members.member key v ms))
    chain :
        {ms ns os : Members} → MembersReorder ms ns → MembersReorder ns os → MembersReorder ms os

-- The encoded members are the same, once they are sorted.
abbrev SortsTo : Members → List Encoded → Type 0
SortsTo ms sorted =
    (entries : List Encoded) × (encode_members ms ≡ ok entries) × (sort_members entries ≡ sorted)

-- What a run over a member first has found.
record First (key : Text) (v : Value) (ms : Members) (out : List Encoded) : Type 0 where
  name : Text
  entry : Text
  entries : List Encoded
  named : encode_text key ≡ ok name
  encoded : encode v ≡ ok entry
  others : encode_members ms ≡ ok entries
  result : record { key = key; entry = name ++ (58 ∷ entry) } ∷ entries ≡ out

encode_members-First :
    (key : Text) (v : Value) (ms : Members) {out : List Encoded}
    → encode_members (Members.member key v ms) ≡ ok out
    → First key v ms out
unfolding encode_members
encode_members-First key v ms e = >>=-elim (encode_text key) _ e λ name named e₁.
    >>=-elim (encode v) _ e₁ λ entry encoded e₂.
      >>=-elim (encode_members ms) _ e₂ λ entries others e₃. record {
        name = name;
        entry = entry;
        entries = entries;
        named = named;
        encoded = encoded;
        others = others;
        result = ok-injective e₃;
      }

First-encode_members :
    (key : Text) (v : Value) (ms : Members) (name entry : Text) (entries : List Encoded)
    → encode_text key ≡ ok name
    → encode v ≡ ok entry
    → encode_members ms ≡ ok entries
    → encode_members (Members.member key v ms)
      ≡ ok (record { key = key; entry = name ++ (58 ∷ entry) } ∷ entries)
unfolding encode_members
First-encode_members key v ms name entry entries a b c = rw (a, b, c) refl

swap-SortsTo :
    (key other : Text) (v w : Value) (ms : Members) {entries : List Encoded}
    → key ≢ other
    → encode_members (Members.member key v (Members.member other w ms)) ≡ ok entries
    → SortsTo (Members.member other w (Members.member key v ms)) (sort_members entries)
swap-SortsTo key other v w ms apart e =
    let a = encode_members-First key v (Members.member other w ms) e in
    let b = encode_members-First other w ms a.others in
    let x : Encoded = record { key = key; entry = a.name ++ (58 ∷ a.entry) } in
    let y : Encoded = record { key = other; entry = b.name ++ (58 ∷ b.entry) } in
    (
      y ∷ x ∷ b.entries,
      First-encode_members other w (Members.member key v ms) b.name b.entry (x ∷ b.entries) b.named
          b.encoded
          (First-encode_members key v ms a.name a.entry b.entries a.named a.encoded b.others),
      sym (insert_member-insert_member x y (sort_members b.entries) apart)
          ∙ ap (λ rest. insert_member x (sort_members rest)) b.result
          ∙ ap sort_members a.result,
    )

values-same :
    (v w : Value) (vs ws : Values) {out : List Encoded}
    → ((entry : Text) → encode v ≡ ok entry → encode w ≡ ok entry)
    → ((entries : List Encoded) → encode_values vs ≡ ok entries → encode_values ws ≡ ok entries)
    → encode_values (Values.value v vs) ≡ ok out
    → encode_values (Values.value w ws) ≡ ok out
unfolding encode_values
values-same v w vs ws first rest e = >>=-elim (encode v) _ e λ entry encoded e₁.
    >>=-elim (encode_values vs) _ e₁
      λ entries others e₂. rw (first entry encoded, rest entries others) e₂

array-same :
    (vs ws : Values) {out : Text}
    → ((entries : List Encoded) → encode_values vs ≡ ok entries → encode_values ws ≡ ok entries)
    → encode (Value.array vs) ≡ ok out
    → encode (Value.array ws) ≡ ok out
unfolding encode
array-same vs ws all e =
    >>=-elim (encode_values vs) _ e λ entries others e₁. rw (all entries others) e₁

object-same :
    (ms ns : Members) {out : Text}
    → ((entries : List Encoded)
        → encode_members ms ≡ ok entries
        → SortsTo ns (sort_members entries))
    → encode (Value.object ms) ≡ ok out
    → encode (Value.object ns) ≡ ok out
unfolding encode
object-same ms ns all e = >>=-elim (encode_members ms) _ e λ entries others e₁.
    let (found, encoded, sorted) = all entries others in rw (encoded, sorted) e₁

member-same :
    (key : Text) (v w : Value) (ms ns : Members) {out : List Encoded}
    → ((entry : Text) → encode v ≡ ok entry → encode w ≡ ok entry)
    → ((entries : List Encoded)
        → encode_members ms ≡ ok entries
        → SortsTo ns (sort_members entries))
    → encode_members (Members.member key v ms) ≡ ok out
    → SortsTo (Members.member key w ns) (sort_members out)
member-same key v w ms ns first rest e =
    let a = encode_members-First key v ms e in
    let x : Encoded = record { key = key; entry = a.name ++ (58 ∷ a.entry) } in
    let (found, encoded, sorted) = rest a.entries a.others in
    (
      x ∷ found,
      First-encode_members key w ns a.name a.entry found a.named (first a.entry a.encoded) encoded,
      ap (insert_member x) sorted ∙ ap sort_members a.result,
    )

chain-SortsTo :
    (ns os : Members) (sorted : List Encoded)
    → SortsTo ns sorted
    → ((entries : List Encoded)
        → encode_members ns ≡ ok entries
        → SortsTo os (sort_members entries))
    → SortsTo os sorted
chain-SortsTo ns os sorted (found, encoded, kept) rest =
    let (last, again, kept') = rest found encoded in (last, again, kept' ∙ kept)

mutual
  encode-Reorders :
      {v w : Value} {out : Text} → Reorders v w → encode v ≡ ok out → encode w ≡ ok out
  encode-Reorders Reorders.same e = e
  encode-Reorders (Reorders.array {vs} {ws} all) e =
      array-same vs ws (λ entries h. encode_values-AllReorder all h) e
  encode-Reorders (Reorders.object {ms} {ns} some_order) e =
      object-same ms ns (λ entries h. encode_members-MembersReorder some_order h) e

  encode_values-AllReorder :
      {vs ws : Values} {out : List Encoded}
      → AllReorder vs ws
      → encode_values vs ≡ ok out
      → encode_values ws ≡ ok out
  encode_values-AllReorder AllReorder.values_end e = e
  encode_values-AllReorder (AllReorder.next_value {v} {w} {vs} {ws} first rest) e =
      values-same v w vs ws (λ entry h. encode-Reorders first h)
        (λ entries h. encode_values-AllReorder rest h) e

  encode_members-MembersReorder :
      {ms ns : Members} {out : List Encoded}
      → MembersReorder ms ns
      → encode_members ms ≡ ok out
      → SortsTo ns (sort_members out)
  encode_members-MembersReorder {out = out} MembersReorder.members_end e = (out, e, refl)
  encode_members-MembersReorder (MembersReorder.next_member {key} {v} {w} {ms} {ns} first rest) e =
      member-same key v w ms ns (λ entry h. encode-Reorders first h)
        (λ entries h. encode_members-MembersReorder rest h) e
  encode_members-MembersReorder (MembersReorder.swap {key} {other} {v} {w} {ms} apart) e =
      swap-SortsTo key other v w ms apart e
  encode_members-MembersReorder (MembersReorder.chain {ms} {ns} {os} first rest) e =
      chain-SortsTo ns os _ (encode_members-MembersReorder first e)
        (λ entries h. encode_members-MembersReorder rest h)

-- If one value comes from another by moving members of objects, at any depth, past members with
-- other keys, then both have the same canonical text where one has one.
pub canonical_json-Reorders :
    {v w : Value} {out : Text}
    → Reorders v w
    → canonical_json v ≡ ok out
    → canonical_json w ≡ ok out
unfolding canonical_json
canonical_json-Reorders reordered e = encode-Reorders reordered e
