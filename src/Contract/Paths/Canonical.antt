-- ===== src/Contract/Paths/Canonical.antt =====
-- What the canonical form of a path gives: no closing slash, and a second test that never fires.
use bimo.Base.{
  String, true, false, any, codes, ◌≡◌, refl, ends_with_code, split_slash, push, arith, ok,
}
use bimo.Base.Text.{split_from}
use bimo.Js.{Value, text_of}
use bimo.Contract.Paths.{is_dot_segment, is_canonical, drop_slash, assert_repository_directory}

split_from-any_dot :
    (cur s : String) → ends_with_code b'/' s ≡ true → any is_dot_segment (split_from cur s) ≡ true
unfolding split_from
split_from-any_dot cur String.[] h = cc
split_from-any_dot cur (String.◌∷◌ c String.[]) h = ground arith
split_from-any_dot cur (String.◌∷◌ c (String.◌∷◌ d s)) h = ground (
  arith,
  split_from-any_dot "" (String.◌∷◌ d s),
  split_from-any_dot (push cur c) (String.◌∷◌ d s),
)

canonical-ends : (s : String) → is_canonical s ≡ true → ends_with_code b'/' s ≡ false
unfolding split_slash
canonical-ends s h = ground (arith, split_from-any_dot "" s)

ends-drop_slash : (s : String) → ends_with_code b'/' s ≡ false → drop_slash (codes s) ≡ codes s
ends-drop_slash String.[] h = refl
ends-drop_slash (String.◌∷◌ c String.[]) h = rw h
ends-drop_slash (String.◌∷◌ c (String.◌∷◌ d s)) h = ground (arith, ends-drop_slash (String.◌∷◌ d s))

pub assert_repository_directory-canonical :
    (v : Value) (label : String)
    → assert_repository_directory v label ≡ ok tt
    → is_canonical (text_of v) ≡ true
unfolding assert_repository_directory
assert_repository_directory-canonical v label h = ground arith

pub drop_slash-canonical : (s : String) → is_canonical s ≡ true → drop_slash (codes s) ≡ codes s
drop_slash-canonical s h = ends-drop_slash s (canonical-ends s h)
