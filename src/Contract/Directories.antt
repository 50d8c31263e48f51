-- ===== src/Contract/Directories.antt =====
-- `validateExistingDirectories` of src/pod-contract.mjs.
use bimo.Base.{
  ℕ, suc, String, not, List, [], ◌∷◌, length, leb, text_eq, folded, same_codes, includes_code,
  is_absolute, ◌<>◌, Result, ok, check, ◌>>◌, ◌&&◌, ◌||◌, Option, none, some, if◌then◌else◌,
}
use bimo.Js.{Value, is_array, elements, text_of}
use bimo.Contract.Fields.{Checked, assert_text, at_index}
use bimo.Contract.Paths.{is_canonical, backslash}

-- the `folded` map: a directory by its folded name, the latest first
abbrev Spellings : Type 0
Spellings = List (List ℕ × String)

abbrev spelled : List ℕ → Spellings → Option String
spelled k [] = none
spelled k ((j, s) ∷ rest) = if same_codes j k then some s else spelled k rest

-- `if (collision && collision !== value) fail(…)`; a directory that passed `assert_text` is not empty
abbrev refuse_collision : Option String → String → Checked
refuse_collision none s = ok tt
refuse_collision (some t) s =
    check (text_eq t s) ("repository contains a case-colliding directory: " <> t <> " and " <> s)

directories_from : ℕ → Spellings → List String → List Value → Result (List String)
directories_from i spellings exact [] = ok exact
directories_from i spellings exact (v ∷ vs) = do
  assert_text v (at_index "existingDirectories" i) 512
  let s = text_of v
  check (not (includes_code backslash s || is_absolute s) && is_canonical s)
      (at_index "existingDirectories" i <> " must be a canonical relative directory")
  refuse_collision (spelled (folded s) spellings) s
  directories_from (suc i) ((folded s, s) ∷ spellings) (s ∷ exact) vs

-- the set of directories
unfoldable pub validate_existing_directories : Value → Result (List String)
unfolding directories_from
validate_existing_directories values = do
  check
      (is_array values && leb 1 (length (elements values)) && leb (length (elements values)) 100000)
      "existingDirectories must be a non-empty array"
  directories_from 0 [] [] (elements values)
