-- ===== src/Contract/Paths/Isolation.antt =====
-- Two directories that do not overlap own no file in common.
use bimo.Base.{
  ℕ, String, true, false, List, [], ◌∷◌, ◌++◌, text_eq, codes, starts, same_codes, folded,
  lower_code, ◌<>◌, ◌≡◌, refl, map, eq_iff, ap, arith, ◌⊎◌, inl, inr, ok, Bool-cases, ◌∙◌,
}
use Prim.Native.Char.{code}
use text.Mathlib.TextLemmas.{nil-append, cons-append}
use mathlib.Core.List.{map-append}
use bimo.Contract.Paths.{
  directory_contains, directories_overlap, path_is_owned, is_canonical, slash, drop_slash,
  assert_repository_directory,
}
use bimo.Contract.Paths.Canonical.{drop_slash-canonical, assert_repository_directory-canonical}
use bimo.Js.{str}

codes-append : (s t : String) → codes (s <> t) ≡ codes s ++ codes t
codes-append String.[] t = ap codes (nil-append t)
codes-append (String.◌∷◌ c s) t =
    ap codes (cons-append c s t) ∙ ap (λ xs. code c ∷ xs) (codes-append s t)

starts_self : (xs ys : List ℕ) → starts (xs ++ ys) xs ≡ true
starts_self [] ys = refl
starts_self (x ∷ xs) ys = ground (arith, starts_self xs ys)

same_codes_refl : (xs : List ℕ) → same_codes xs xs ≡ true
same_codes_refl [] = refl
same_codes_refl (x ∷ xs) = ground (arith, same_codes_refl xs)

starts-extend : (xs ys zs : List ℕ) → starts xs ys ≡ true → starts (xs ++ zs) ys ≡ true
starts-extend xs [] zs h = refl
starts-extend [] (y ∷ ys) zs h = cc
starts-extend (x ∷ xs) (y ∷ ys) zs h = ground (arith, starts-extend xs ys zs)

-- two prefixes of one list are comparable
starts_comparable :
    (xs a b : List ℕ)
    → starts xs a ≡ true
    → starts xs b ≡ true
    → (starts a b ≡ true) ⊎ (starts b a ≡ true)
starts_comparable xs [] b h k = inr refl
starts_comparable xs (x ∷ a) [] h k = inl refl
starts_comparable [] (x ∷ a) (y ∷ b) h k = cc
starts_comparable (z ∷ xs) (x ∷ a) (y ∷ b) h k = ground (arith, starts_comparable xs a b)

starts-map :
    (xs ys : List ℕ) → starts xs ys ≡ true → starts (map lower_code xs) (map lower_code ys) ≡ true
starts-map xs [] h = refl
starts-map [] (y ∷ ys) h = cc
starts-map (x ∷ xs) (y ∷ ys) h = ground (arith, starts-map xs ys)

-- a prefix with the slash on both sides: the same list, or a proper prefix
starts-slash :
    (a b : List ℕ)
    → starts (a ++ slash) (b ++ slash) ≡ true
    → (same_codes a b ≡ true) ⊎ (starts a (b ++ slash) ≡ true)
starts-slash [] [] h = inl refl
starts-slash [] (y ∷ []) h = ground arith
starts-slash [] (y ∷ z ∷ b) h = ground arith
starts-slash (x ∷ a) [] h = ground arith
starts-slash (x ∷ a) (y ∷ b) h = ground (arith, starts-slash a b)

starts_refl : (xs : List ℕ) → starts xs xs ≡ true
starts_refl [] = refl
starts_refl (x ∷ xs) = ground (arith, starts_refl xs)

owned-starts :
    (p d : String)
    → drop_slash (codes d) ≡ codes d
    → path_is_owned p d ≡ true
    → starts (codes p ++ slash) (codes d ++ slash) ≡ true
unfolding path_is_owned
owned-starts p d plain h = elim (Bool-cases (text_eq p d)) [
  | inl same ↦ rw ((eq_iff p d).0 same) (starts_refl (codes d ++ slash))
  | inr differ ↦ starts-extend (codes p) (codes d ++ slash) slash (rw plain at (rw differ at h))
]

contained-starts :
    (d p : String)
    → directory_contains d p ≡ true
    → starts (codes p ++ slash) (codes d ++ slash) ≡ true
unfolding directory_contains
contained-starts d p h = elim (Bool-cases (text_eq d p)) [
  | inl same ↦ rw ((eq_iff d p).0 same) (starts_refl (codes p ++ slash))
  | inr differ ↦
      starts-extend (codes p) (codes d ++ slash) slash (rw codes-append at (rw differ at h))
]

folded-starts :
    (l r : String)
    → starts (codes l ++ slash) (codes r ++ slash) ≡ true
    → starts (folded l ++ slash) (folded r ++ slash) ≡ true
folded-starts l r h =
    rw (map-append lower_code (codes l) slash, map-append lower_code (codes r) slash) at
      (starts-map (codes l ++ slash) (codes r ++ slash) h)

same_codes_sym : (xs ys : List ℕ) → same_codes xs ys ≡ true → same_codes ys xs ≡ true
same_codes_sym [] [] h = refl
same_codes_sym [] (y ∷ ys) h = cc
same_codes_sym (x ∷ xs) [] h = cc
same_codes_sym (x ∷ xs) (y ∷ ys) h = ground (arith, same_codes_sym xs ys)

overlap_of_starts :
    (l r : String)
    → (starts (codes l ++ slash) (codes r ++ slash) ≡ true)
      ⊎ (starts (codes r ++ slash) (codes l ++ slash) ≡ true)
    → directories_overlap l r ≡ true
unfolding directories_overlap
overlap_of_starts l r (inl h) = elim (starts-slash (folded l) (folded r) (folded-starts l r h)) [
  | inl same ↦ rw same
  | inr below ↦ ground arith
]
overlap_of_starts l r (inr h) = elim (starts-slash (folded r) (folded l) (folded-starts r l h)) [
  | inl same ↦ rw (same_codes_sym (folded r) (folded l) same)
  | inr below ↦ ground arith
]

no_common_prefix :
    (l r p : String)
    → directories_overlap l r ≡ false
    → starts (codes p ++ slash) (codes l ++ slash) ≡ true
    → starts (codes p ++ slash) (codes r ++ slash) ≡ true
    → ⊥
no_common_prefix l r p apart a b =
    let c = starts_comparable (codes p ++ slash) (codes l ++ slash) (codes r ++ slash) a b in
    cc (overlap_of_starts l r c)

-- No path is owned by two canonical directories that do not overlap: what one of them owns, the
-- other does not.
pub disjoint_ownership :
    (l r p : String)
    → is_canonical l ≡ true
    → is_canonical r ≡ true
    → directories_overlap l r ≡ false
    → path_is_owned p l ≡ true
    → path_is_owned p r ≡ false
disjoint_ownership l r p okl okr apart owned = elim (Bool-cases (path_is_owned p r)) [
  | inl both ↦ absurd (
      no_common_prefix l r p apart (owned-starts p l (drop_slash-canonical l okl) owned)
        (owned-starts p r (drop_slash-canonical r okr) both))
  | inr only ↦ only
]

-- The contract's test agrees with the controller's: for a directory that the contract accepts, a
-- path is contained in it exactly when the controller lets its writer commit the path.
pub directory_contains-owned :
    (d p label : String)
    → assert_repository_directory (str d) label ≡ ok tt
    → directory_contains d p ≡ path_is_owned p d
unfolding directory_contains path_is_owned
directory_contains-owned d p label h =
    rw
      (drop_slash-canonical d (assert_repository_directory-canonical (str d) label h), codes-append)
      (ground (arith, eq_iff d p, eq_iff p d))

-- Whether two directories overlap does not depend on their order.
pub directories_overlap_comm : (l r : String) → directories_overlap l r ≡ directories_overlap r l
unfolding directories_overlap
directories_overlap_comm l r =
    ground (arith, same_codes_sym (folded l) (folded r), same_codes_sym (folded r) (folded l))
