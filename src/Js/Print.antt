-- ===== src/Js/Print.antt =====
-- `JSON.stringify` without an indent, and `canonicalJson` of src/pod-contract.mjs, which prints the
-- keys of every object in order.
use Prim.Native.Nat.{Ordering}
use Prim.Native.Char.{Char, code}
use Prim.Native.String.{String, [], ◌∷◌, compare as compare_text}
use bimo.Base.{
  ℕ, zero, suc, ◌/◌, ◌%◌, Bool, true, false, List, ◌≡◌, refl, ◌==◌, ltb, if◌then◌else◌, ◌<>◌,
  decimal, digit, text_eq,
}
use mathlib.Core.List.{[], ◌∷◌}
use bimo.Js.Values.{
  Value, undefined, null, bool, nat, neg, real, str, arr, obj, other, Items, nil, cons, Fields, end,
  field,
}

abbrev hex_digit : ℕ → String
hex_digit n =
    if n == 10
    then "a"
    else if n == 11
    then "b"
    else if n == 12
    then "c"
    else if n == 13
    then "d"
    else if n == 14
    then "e"
    else if n == 15
    then "f"
    else digit n

-- one character inside a quoted text
escape : Char → String
escape c =
    let k = code c in
    if k == 34
    then "\\\""
    else if k == 92
    then "\\\\"
    else if k == 8
    then "\\b"
    else if k == 9
    then "\\t"
    else if k == 10
    then "\\n"
    else if k == 12
    then "\\f"
    else if k == 13
    then "\\r"
    else if ltb k 32
    then "\\u00" <> hex_digit (k / 16) <> hex_digit (k % 16)
    else c ∷ []

escape_all : String → String
unfolding escape
escape_all [] = ""
escape_all (c ∷ s) = escape c <> escape_all s

quote : String → String
unfolding escape_all
quote s = "\"" <> escape_all s <> "\""

-- a property that `JSON.stringify` leaves out
abbrev is_omitted : Value → Bool
is_omitted undefined = true
is_omitted (other n) = true
is_omitted _ = false

-- an element of an array that has no JSON text prints as `null`
abbrev or_null : Value → String → String
or_null v s = if is_omitted v then "null" else s

abbrev joined : String → String → String
joined s rest = if text_eq rest "" then s else s <> "," <> rest

unfoldable mutual
  unfolding quote

  pub stringify : Value → String
  stringify undefined = "undefined"
  stringify null = "null"
  stringify (bool true) = "true"
  stringify (bool false) = "false"
  stringify (nat n) = decimal n
  stringify (neg n) = "-" <> decimal (suc n)
  stringify (real s) = s
  stringify (str s) = quote s
  stringify (arr vs) = "[" <> print_items vs <> "]"
  stringify (obj fs) = "{" <> print_fields fs <> "}"
  stringify (other n) = "undefined"

  print_items : Items → String
  print_items nil = ""
  print_items (cons v vs) = joined (or_null v (stringify v)) (print_items vs)

  print_fields : Fields → String
  print_fields end = ""
  print_fields (field k v fs) =
      let rest = print_fields fs in
      if is_omitted v then rest else joined (quote k <> ":" <> stringify v) rest

-- `JSON.stringify(value, null, 2)`: a line for each element, indented by its depth
abbrev indent : ℕ → String
indent zero = ""
indent (suc n) = "  " <> indent n

abbrev lines : String → String → String
lines s rest = if text_eq rest "" then s else s <> ",\n" <> rest

abbrev enclosed : String → String → ℕ → String → String
enclosed left right depth body =
    if text_eq body "" then left <> right else left <> "\n" <> body <> "\n" <> indent depth <> right

unfoldable mutual
  unfolding quote

  pub pretty_from : ℕ → Value → String
  pretty_from d undefined = "undefined"
  pretty_from d null = "null"
  pretty_from d (bool true) = "true"
  pretty_from d (bool false) = "false"
  pretty_from d (nat n) = decimal n
  pretty_from d (neg n) = "-" <> decimal (suc n)
  pretty_from d (real s) = s
  pretty_from d (str s) = quote s
  pretty_from d (arr vs) = enclosed "[" "]" d (pretty_items (suc d) vs)
  pretty_from d (obj fs) = enclosed "{" "}" d (pretty_fields (suc d) fs)
  pretty_from d (other n) = "undefined"

  pretty_items : ℕ → Items → String
  pretty_items d nil = ""
  pretty_items d (cons v vs) = lines (indent d <> or_null v (pretty_from d v)) (pretty_items d vs)

  pretty_fields : ℕ → Fields → String
  pretty_fields d end = ""
  pretty_fields d (field k v fs) =
      let rest = pretty_fields d fs in
      if is_omitted v then rest else lines (indent d <> quote k <> ": " <> pretty_from d v) rest

-- the order of `Array.prototype.sort` on keys
abbrev before : String → String → Bool
before s t = elim (compare_text s t) [ Ordering.gt ↦ false | _ ↦ true ]

-- one printed property, put in its place by key
abbrev Printed : Type 0
Printed = List (String × String)

insert_key : String → String → Printed → Printed
insert_key k s [] = (k, s) ∷ []
insert_key k s ((j, t) ∷ rest) =
    let later = insert_key k s rest in if before k j then (k, s) ∷ (j, t) ∷ rest else (j, t) ∷ later

print_sorted : Printed → String
unfolding quote
print_sorted [] = ""
print_sorted ((k, s) ∷ rest) = joined (quote k <> ":" <> s) (print_sorted rest)

unfoldable mutual
  unfolding quote insert_key print_sorted

  pub canonical_json : Value → String
  canonical_json (arr vs) = "[" <> canonical_items vs <> "]"
  canonical_json (obj fs) = "{" <> print_sorted (canonical_fields fs) <> "}"
  canonical_json undefined = "undefined"
  canonical_json null = "null"
  canonical_json (bool true) = "true"
  canonical_json (bool false) = "false"
  canonical_json (nat n) = decimal n
  canonical_json (neg n) = "-" <> decimal (suc n)
  canonical_json (real s) = s
  canonical_json (str s) = quote s
  canonical_json (other n) = "undefined"

  -- `join(",")` of the printed elements: an `undefined` one prints as nothing
  canonical_items : Items → String
  canonical_items nil = ""
  canonical_items (cons v nil) = if is_omitted v then "" else canonical_json v
  canonical_items (cons v (cons w vs)) =
      (if is_omitted v then "" else canonical_json v) <> "," <> canonical_items (cons w vs)

  canonical_fields : Fields → Printed
  canonical_fields end = []
  canonical_fields (field k v fs) = insert_key k (canonical_json v) (canonical_fields fs)

abbrev sample : Value
sample = obj (field "b" (arr (cons (nat 1) (cons (str "x\"") nil))) (field "a" null end))

sample_pretty :
    pretty_from 0 sample ≡ "{\n  \"b\": [\n    1,\n    \"x\\\"\"\n  ],\n  \"a\": null\n}"
unfolding pretty_from decimal
sample_pretty = refl

sample_printed :
    (stringify sample ≡ "{\"b\":[1,\"x\\\"\"],\"a\":null}")
    × (canonical_json sample ≡ "{\"a\":null,\"b\":[1,\"x\\\"\"]}")
unfolding stringify canonical_json decimal
sample_printed = (refl, refl)
