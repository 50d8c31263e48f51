-- ===== src/Base/Text.antt =====
-- JavaScript strings as native texts: the methods that the program calls on them.
use Prim.Native.Nat.{ℕ, zero, suc, ◌+◌, ◌/◌, ◌%◌}
use Prim.Native.Char.{Char, code}
use Prim.Native.String
use Prim.Native.String.{String, [], ◌∷◌}
use mathlib.Core.Path.{◌≡◌, refl}
use mathlib.Core.Bool.{Bool, true, false, ◌&&◌, ◌||◌}
use mathlib.Core.List.{List, [], ◌∷◌, map, reverse}
use text.Mathlib.Text.{◌==◌ as text_eq}
use bimo.Base.Tests.{ltb, leb, ◌==◌, if◌then◌else◌}

infixr 65 ◌<>◌
abbrev pub ◌<>◌ : String → String → String
s <> t = String.◌++◌ s t

-- the code points of a text
abbrev pub codes : String → List ℕ
codes [] = []
codes (c ∷ s) = code c ∷ codes s

-- the second list is a prefix of the first
abbrev pub starts : List ℕ → List ℕ → Bool
starts xs [] = true
starts [] (y ∷ ys) = false
starts (x ∷ xs) (y ∷ ys) = x == y && starts xs ys

abbrev pub same_codes : List ℕ → List ℕ → Bool
same_codes [] [] = true
same_codes (x ∷ xs) (y ∷ ys) = x == y && same_codes xs ys
same_codes _ _ = false

-- `s.startsWith(t)`
abbrev pub begins : String → String → Bool
begins s t = starts (codes s) (codes t)

-- `s.toLowerCase()`, as code points, of a text whose letters are ASCII
abbrev pub lower_code : ℕ → ℕ
lower_code c = if leb b'A' c && leb c b'Z' then c + 32 else c

abbrev pub folded : String → List ℕ
folded s = map lower_code (codes s)

-- every or some character passes a test on its code point
abbrev pub every_code : (ℕ → Bool) → String → Bool
every_code p [] = true
every_code p (c ∷ s) = p (code c) && every_code p s

abbrev pub some_code : (ℕ → Bool) → String → Bool
some_code p [] = false
some_code p (c ∷ s) = p (code c) || some_code p s

-- the number of characters
abbrev pub size : String → ℕ
size [] = 0
size (c ∷ s) = suc (size s)

-- `s.includes(c)` for one character
abbrev pub includes_code : ℕ → String → Bool
includes_code k s = some_code (λ c. c == k) s

-- `s.endsWith(c)` for one character
abbrev pub ends_with_code : ℕ → String → Bool
ends_with_code k [] = false
ends_with_code k (c ∷ []) = code c == k
ends_with_code k (c ∷ d ∷ s) = ends_with_code k (d ∷ s)

-- `s.slice(0, n)`, on UTF-16 units; the half of a character that it may leave is printed as U+FFFD
abbrev pub take_units : ℕ → String → String
take_units zero s = []
take_units (suc n) [] = []
take_units (suc zero) (c ∷ s) = elim (ltb (code c) 65536) [ true ↦ c ∷ [] | false ↦ "�" ]
take_units (suc (suc n)) (c ∷ s) = elim (ltb (code c) 65536) [
  | true ↦ c ∷ take_units (suc n) s
  | false ↦ c ∷ take_units n s
]

abbrev pub push : String → Char → String
push s c = String.◌++◌ s (c ∷ [])

-- `s.split("/")`
unfoldable pub split_from : String → String → List String
split_from cur [] = cur ∷ []
split_from cur (c ∷ s) =
    let closed : List String = cur ∷ split_from "" s in
    let longer : List String = split_from (push cur c) s in
    elim (code c == b'/') [ true ↦ closed | false ↦ longer ]

unfoldable pub split_slash : String → List String
unfolding split_from
split_slash s = split_from "" s

-- `path.posix.isAbsolute(s)`
abbrev pub is_absolute : String → Bool
is_absolute s = begins s "/"

-- one segment of `path.posix.normalize`; the stack has its top at the head
resolve : Bool → List String → String → List String
resolve absolute [] seg =
    if text_eq seg "" || text_eq seg "."
    then []
    else if text_eq seg ".."
    then (if absolute then [] else ".." ∷ [])
    else seg ∷ []
resolve absolute (top ∷ below) seg =
    if text_eq seg "" || text_eq seg "."
    then top ∷ below
    else if text_eq seg ".."
    then (if text_eq top ".." then ".." ∷ top ∷ below else below)
    else seg ∷ top ∷ below

resolve_all : Bool → List String → List String → List String
resolve_all absolute stack [] = stack
resolve_all absolute stack (seg ∷ segs) = resolve_all absolute (resolve absolute stack seg) segs

-- `segments.join("/")`
unfoldable pub join_slash : List String → String
join_slash [] = ""
join_slash (s ∷ []) = s
join_slash (s ∷ t ∷ rest) = s <> "/" <> join_slash (t ∷ rest)

-- the pieces of `path.posix.normalize`: the root, the resolved path and the closing slash
abbrev dressed : Bool → Bool → String → String
dressed absolute trailing body =
    if text_eq body ""
    then (if absolute then "/" else if trailing then "./" else ".")
    else (if absolute then "/" else "") <> body <> (if trailing then "/" else "")

unfoldable pub normalize : String → String
unfolding resolve resolve_all join_slash split_slash
normalize s =
    if text_eq s ""
    then "."
    else dressed (is_absolute s) (ends_with_code b'/' s)
        (join_slash (reverse (resolve_all (is_absolute s) [] (split_slash s))))

normalize_tests :
    (normalize "a/./b//c/../d/" ≡ "a/b/d/")
    × (normalize "/../x" ≡ "/x")
    × (normalize "a/../.." ≡ "..")
unfolding normalize
normalize_tests = (refl, refl, refl)

-- membership in a set of strings
abbrev pub mem_text : String → List String → Bool
mem_text k [] = false
mem_text k (x ∷ xs) = text_eq k x || mem_text k xs

-- character classes of the regular expressions
abbrev pub is_lower : ℕ → Bool
is_lower c = leb b'a' c && leb c b'z'

abbrev pub is_upper : ℕ → Bool
is_upper c = leb b'A' c && leb c b'Z'

abbrev pub is_digit : ℕ → Bool
is_digit c = leb b'0' c && leb c b'9'

abbrev pub is_hex : ℕ → Bool
is_hex c = is_digit c || leb b'a' c && leb c b'f'

-- the characters that `trim` removes
abbrev pub is_space : ℕ → Bool
is_space c =
    leb 9 c && leb c 13
    || c == 32
    || c == 160
    || c == 0x1680
    || leb 0x2000 c && leb c 0x200a
    || c == 0x2028
    || c == 0x2029
    || c == 0x202f
    || c == 0x205f
    || c == 0x3000
    || c == 0xfeff

-- the class `[\u0000-\u0008\u000b\u000c\u000e-\u001f\u007f]`
abbrev pub is_unsafe_control : ℕ → Bool
is_unsafe_control c = leb c 8 || c == 11 || c == 12 || leb 14 c && leb c 31 || c == 127

-- the decimal digits of a number, as a template literal prints them
abbrev pub digit : ℕ → String
digit zero = "0"
digit (suc zero) = "1"
digit (suc (suc zero)) = "2"
digit (suc (suc (suc zero))) = "3"
digit (suc (suc (suc (suc zero)))) = "4"
digit (suc (suc (suc (suc (suc zero))))) = "5"
digit (suc (suc (suc (suc (suc (suc zero)))))) = "6"
digit (suc (suc (suc (suc (suc (suc (suc zero))))))) = "7"
digit (suc (suc (suc (suc (suc (suc (suc (suc zero)))))))) = "8"
digit _ = "9"

decimal_from : ℕ → ℕ → String → String
decimal_from zero n acc = acc
decimal_from (suc f) n acc =
    let rest = decimal_from f (n / 10) (digit (n % 10) <> acc) in
    if ltb n 10 then digit (n % 10) <> acc else rest

unfoldable pub decimal : ℕ → String
unfolding decimal_from
decimal n = decimal_from (suc n) n ""

decimal_tests : (decimal 0 ≡ "0") × (decimal 104857600 ≡ "104857600")
unfolding decimal
decimal_tests = (refl, refl)

split_tests : split_slash "a//b/" ≡ "a" ∷ "" ∷ "b" ∷ "" ∷ []
unfolding split_slash
split_tests = refl
