-- ===== src/Contract/Paths.antt =====
-- The checks on paths of src/pod-contract.mjs, and `pathIsOwned` of src/pod-controller.mjs.
pub mod Isolation
pub mod Canonical
use bimo.Base.{
  ℕ, String, len, Bool, true, not, ◌&&◌, ◌||◌, List, [], ◌∷◌, ◌++◌, any, all, leb, ltb, text_eq,
  every_code, includes_code, ends_with_code, is_upper, is_lower, is_digit, is_absolute, codes,
  starts, begins, same_codes, folded, split_slash, normalize, ◌<>◌, Result, check, ◌>>=◌, ◌>>◌,
  ◌==◌, ◌≡◌, refl, ok, map, if◌then◌else◌,
}
use bimo.Js.{Value, str, text_of}
use bimo.Contract.Fields.{Checked, assert_text}

-- `!segment || segment === "." || segment === ".."`
abbrev pub is_dot_segment : String → Bool
is_dot_segment seg = text_eq seg "" || text_eq seg "." || text_eq seg ".."

-- /^[A-Za-z0-9._-]+$/
abbrev pub is_portable_code : ℕ → Bool
is_portable_code c = is_upper c || is_lower c || is_digit c || c == b'.' || c == b'_' || c == b'-'

abbrev pub is_portable_component : String → Bool
is_portable_component s = not (text_eq s "") && every_code is_portable_code s

-- the second test of the three functions below
abbrev pub is_canonical : String → Bool
is_canonical s = not (any is_dot_segment (split_slash s)) && text_eq (normalize s) s

abbrev pub is_portable : String → Bool
is_portable s = leb (len s) 240 && all is_portable_component (split_slash s)

-- a segment that folds to `.git` or `.github`
abbrev pub is_control_segment : String → Bool
is_control_segment s =
    same_codes (folded s) (codes ".git") || same_codes (folded s) (codes ".github")

abbrev pub backslash : ℕ
backslash = 92

unfoldable pub assert_prompt_path : Value → String → Checked
assert_prompt_path v label = do
  assert_text v label 512
  let s = text_of v
  check (not (includes_code backslash s || is_absolute s))
      (label <> " must be a canonical relative path")
  check (is_canonical s) (label <> " must be a canonical relative path")

unfoldable pub assert_repository_directory : Value → String → Checked
assert_repository_directory v label = do
  assert_text v label 512
  let s = text_of v
  check (not (includes_code backslash s || is_absolute s))
      (label <> " must be a canonical relative directory")
  check (is_canonical s) (label <> " must be a canonical relative directory")
  check (is_portable s) (label <> " must be a portable ASCII path no larger than 240 bytes")
  check (not (any is_control_segment (split_slash s)))
      (label <> " names a forbidden repository control path")

unfoldable pub assert_repository_file : Value → String → Checked
assert_repository_file v label = do
  assert_text v label 512
  let s = text_of v
  check (not (includes_code backslash s || is_absolute s || ends_with_code b'/' s))
      (label <> " must be a canonical relative file path")
  check (is_canonical s) (label <> " must be a canonical relative file path")
  check (is_portable s) (label <> " must be a portable ASCII path no larger than 240 bytes")
  check (not (any is_control_segment (split_slash s)))
      (label <> " names a forbidden repository control path")

-- `directoryContains(parent, child)`
unfoldable pub directory_contains : String → String → Bool
directory_contains parent child = text_eq parent child || begins child (parent <> "/")

abbrev slash : List ℕ
slash = b'/' ∷ []

-- `directoriesOverlap(left, right)`
unfoldable pub directories_overlap : String → String → Bool
directories_overlap left right =
    same_codes (folded left) (folded right)
    || starts (folded left) (folded right ++ slash)
    || starts (folded right) (folded left ++ slash)

-- `writePath.replace(/\/$/, "")`, on code points
abbrev drop_slash : List ℕ → List ℕ
drop_slash [] = []
drop_slash (c ∷ []) = if c == b'/' then [] else c ∷ []
drop_slash (c ∷ d ∷ cs) = c ∷ drop_slash (d ∷ cs)

-- `pathIsOwned(path, writePath)` of the controller
unfoldable pub path_is_owned : String → String → Bool
path_is_owned path write_path =
    text_eq path write_path || starts (codes path) (drop_slash (codes write_path) ++ slash)

file_tests :
    (assert_repository_file (str "src/app.mjs") "p" ≡ ok tt)
    × (assert_repository_file (str "src/../x") "p"
        ≡ Result.err "p must be a canonical relative file path")
    × (assert_repository_file (str "a/.GitHub/x") "p"
        ≡ Result.err "p names a forbidden repository control path")
unfolding assert_repository_file assert_text normalize split_slash
file_tests = (refl, refl, refl)

overlap_tests :
    (directories_overlap "src" "Src/lib" ≡ true) × (directories_overlap "src" "srcs" ≡ Bool.false)
unfolding directories_overlap
overlap_tests = (refl, refl)
