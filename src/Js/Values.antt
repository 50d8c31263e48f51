-- ===== src/Js/Values.antt =====
-- JavaScript values. An integer is `nat n` or `neg n`, which is -(n + 1); another finite number is
-- `real s`, by the text that JSON prints for it; `other` stands for functions, symbols, instances
-- of classes, by an identity; NaN and the infinities, which no JSON text denotes, are left out. The
-- keys of an object are in insertion order.
use bimo.Base.{
  ℕ, suc, String, Bool, true, false, ◌&&◌, ◌||◌, List, [], ◌∷◌, ◌==◌, if◌then◌else◌, leb, ◌<>◌,
  decimal, text_eq,
}

mutual
  pub data Value : Type 0 where
    undefined null : Value
    bool : Bool → Value
    nat : ℕ → Value
    neg : ℕ → Value
    real : String → Value
    str : String → Value
    arr : Items → Value
    obj : Fields → Value
    other : ℕ → Value

  pub data Items : Type 0 where
    nil : Items
    cons : Value → Items → Items

  pub data Fields : Type 0 where
    end : Fields
    field : String → Value → Fields → Fields

abbrev pub items : Items → List Value
items nil = []
items (cons v vs) = v ∷ items vs

abbrev pub from_list : List Value → Items
from_list [] = nil
from_list (v ∷ vs) = cons v (from_list vs)

abbrev pub texts : List String → Items
texts [] = nil
texts (s ∷ ss) = cons (str s) (texts ss)

-- `Object.keys(value)`
abbrev pub keys : Fields → List String
keys end = []
keys (field k v fs) = k ∷ keys fs

abbrev pub keys_of : Value → List String
keys_of (obj fs) = keys fs
keys_of _ = []

-- an object literal
abbrev pub fields_from : List (String × Value) → Fields
fields_from [] = end
fields_from ((k, v) ∷ rest) = field k v (fields_from rest)

abbrev pub object : List (String × Value) → Value
object fs = obj (fields_from fs)

-- the own property `k`, and `undefined` where there is none
abbrev pub find_field : String → Fields → Value
find_field k end = undefined
find_field k (field j v fs) = if text_eq j k then v else find_field k fs

abbrev pub has_field : String → Fields → Bool
has_field k end = false
has_field k (field j v fs) = text_eq j k || has_field k fs

-- `value.k`, on a value that is not `null` or `undefined`
abbrev pub get : Value → String → Value
get (obj fs) k = find_field k fs
get _ k = undefined

-- `Object.hasOwn(value, k)`
abbrev pub has_own : Value → String → Bool
has_own (obj fs) k = has_field k fs
has_own _ k = false

-- `value[k] = v` on an own or a new property
abbrev pub set_field : String → Value → Fields → Fields
set_field k v end = field k v end
set_field k v (field j w fs) = if text_eq j k then field j v fs else field j w (set_field k v fs)

-- the spread `{ ...base, ...more }`
abbrev pub spread : Fields → Fields → Fields
spread base end = base
spread base (field k v fs) = spread (set_field k v base) fs

-- the fields of a plain object; a spread of anything else that the program spreads has none
abbrev pub fields_of : Value → Fields
fields_of (obj fs) = fs
fields_of _ = end

abbrev pub is_plain_object : Value → Bool
is_plain_object (obj fs) = true
is_plain_object _ = false

-- `Array.isArray(value)`
abbrev pub is_array : Value → Bool
is_array (arr vs) = true
is_array _ = false

-- the elements of an array
abbrev pub elements : Value → List Value
elements (arr vs) = items vs
elements _ = []

-- `typeof value === "string"`
abbrev pub is_string : Value → Bool
is_string (str s) = true
is_string _ = false

-- the text of a string
abbrev pub text_of : Value → String
text_of (str s) = s
text_of _ = ""

abbrev pub is_null : Value → Bool
is_null null = true
is_null _ = false

-- `value ?? fallback`
abbrev pub or_else : Value → Value → Value
or_else undefined w = w
or_else null w = w
or_else v w = v

-- `v === w`. Arrays, objects and functions are compared by identity: two values that the program
-- reads from different places are different objects.
unfoldable pub strict_equal : Value → Value → Bool
strict_equal undefined undefined = true
strict_equal null null = true
strict_equal (bool true) (bool true) = true
strict_equal (bool false) (bool false) = true
strict_equal (nat m) (nat n) = m == n
strict_equal (neg m) (neg n) = m == n
strict_equal (real s) (real t) = text_eq s t
strict_equal (str s) (str t) = text_eq s t
strict_equal _ _ = false

-- `value === "text"`
abbrev pub is_text : Value → String → Bool
is_text (str s) t = text_eq s t
is_text _ t = false

-- the conditional on a value: `if (value)`
abbrev pub is_truthy : Value → Bool
is_truthy (bool b) = b
is_truthy undefined = false
is_truthy null = false
is_truthy (nat n) = leb 1 n
is_truthy (str s) = elim (text_eq s "") [ true ↦ false | false ↦ true ]
is_truthy _ = true

-- `value === n` for a number
abbrev pub is_nat : Value → ℕ → Bool
is_nat (nat m) n = m == n
is_nat _ n = false

-- `Number.isInteger(value) && minimum <= value && value <= maximum`
abbrev pub in_range : Value → ℕ → ℕ → Bool
in_range (nat n) lo hi = leb lo n && leb n hi
in_range _ lo hi = false

abbrev pub nat_of : Value → ℕ
nat_of (nat n) = n
nat_of _ = 0

abbrev pub max_safe_integer : ℕ
max_safe_integer = 9007199254740991

-- an element of `array.join`: `null` and `undefined` print as nothing
abbrev join_item : Value → String → String
join_item undefined s = ""
join_item null s = ""
join_item _ s = s

-- `String(value)`, which a template literal and `RegExp.test` apply; an array is `array.join(",")`
unfoldable mutual
  pub to_text : Value → String
  to_text undefined = "undefined"
  to_text null = "null"
  to_text (bool true) = "true"
  to_text (bool false) = "false"
  to_text (nat n) = decimal n
  to_text (neg n) = "-" <> decimal (suc n)
  to_text (real s) = s
  to_text (str s) = s
  to_text (arr vs) = join_items vs
  to_text (obj fs) = "[object Object]"
  to_text (other n) = "[object Object]"

  join_items : Items → String
  join_items nil = ""
  join_items (cons v nil) = join_item v (to_text v)
  join_items (cons v (cons w vs)) = join_item v (to_text v) <> "," <> join_items (cons w vs)
