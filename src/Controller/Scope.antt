-- ===== src/Controller/Scope.antt =====
-- The scope of a writer's commit: `commitWriterResult` of src/pod-controller.mjs.
use bimo.Base.{
  arith, ℕ, suc, ◌≤◌, String, Bool, true, false, List, [], ◌∷◌, any, All, ok, ◌≡◌, ap, length,
  same_codes, folded, check-then, >>-eq-ok, leb, ◌&&◌,
}
use bimo.Js.{Value, get, text_of, nat_of, elements, in_range}
use bimo.Contract.Paths.{assert_repository_file, path_is_owned}
use bimo.Contract.Plan.{text_list}
use bimo.Controller.World.{World, Env, lift}
use bimo.Controller.Time.{Config}
use bimo.Controller.Writers.{
  Attempt, check_paths, check_commit, commit_writer_result, commit_record,
}
use bimo.Controller.Blocks.{pure-returns, >>=-returns, require-returns}

-- no two paths are equal up to case
pub Distinct : List Value → Type 0
Distinct [] = Unit
Distinct (v ∷ vs) =
    All (λ u. same_codes (folded (text_of u)) (folded (text_of v)) ≡ false) vs × Distinct vs

Unseen : List (List ℕ) → Value → Type 0
Unseen seen v = any (same_codes (folded (text_of v))) seen ≡ false

-- what the loop over the paths tells of its list
record Scoped (owned : List String) (seen : List (List ℕ)) (vs : List Value) : Type 0 where
  unseen : All (Unseen seen) vs
  distinct : Distinct vs
  inside : All (λ v. any (path_is_owned (text_of v)) owned ≡ true) vs

first-Unseen :
    (c : Value) (seen : List (List ℕ)) (vs : List Value)
    → All (Unseen (folded (text_of c) ∷ seen)) vs
    → All (λ u. same_codes (folded (text_of u)) (folded (text_of c)) ≡ false) vs
      × All (Unseen seen) vs
unfolding Unseen
first-Unseen c seen [] h = (tt, tt)
first-Unseen c seen (v ∷ vs) (here, later) =
    let (apart, rest) = first-Unseen c seen vs later in
    ((ground arith, apart), (ground arith, rest))

check_paths-Scoped :
    (owned : List String) (i : ℕ) (seen : List (List ℕ)) (vs : List Value)
    → check_paths owned i seen vs ≡ ok tt
    → Scoped owned seen vs
unfolding check_paths Distinct Unseen
check_paths-Scoped owned i seen [] h = record { unseen = tt; distinct = tt; inside = tt }
check_paths-Scoped owned i seen (v ∷ vs) h =
    let (_, h1) = >>-eq-ok (assert_repository_file v _) _ h in
    let (fresh, h2) = check-then _ _ _ h1 in
    let (mine, h3) = check-then _ _ _ h2 in
    let rest = check_paths-Scoped owned (suc i) (folded (text_of v) ∷ seen) vs h3 in
    let (apart, unseen) = first-Unseen v seen vs rest.unseen in
    record {
      unseen = (ground arith, unseen);
      distinct = (apart, rest.distinct);
      inside = (mine, rest.inside);
    }

-- what a committed delta keeps to: the limits of the template and the paths of the work item
pub record InScope (cfg : Config) (item committed : Value) : Type 0 where
  pub some_path : 1 ≤ length (elements (get committed "changedPaths"))
  pub max_files :
      length (elements (get committed "changedPaths"))
      ≤ nat_of (get (get cfg.template "changes") "maxFiles")
  pub max_bytes :
      nat_of (get committed "changedBytes") ≤ nat_of (get (get cfg.template "changes") "maxBytes")
  pub distinct : Distinct (elements (get committed "changedPaths"))
  pub owned :
      All
        (λ v. any (path_is_owned (text_of v)) (text_list (elements (get item "writePaths"))) ≡ true)
        (elements (get committed "changedPaths"))

file_bounds : (b : Bool) (n m : ℕ) → (b && leb 1 n && leb n m) ≡ true → (1 ≤ n) × (n ≤ m)
file_bounds b n m h = ground arith

byte_bound : (v : Value) (most : ℕ) → in_range v 0 most ≡ true → nat_of v ≤ most
byte_bound v most h = ground arith

check_commit-InScope :
    (cfg : Config) (item receipt committed : Value) (env : Env) (w w' : World) (u : Unit {0})
    → check_commit cfg item receipt committed env w ≡ (ok u, w')
    → InScope cfg item committed
unfolding check_commit
check_commit-InScope cfg item receipt committed env w w' u h =
    let (_, h1) = require-returns _ _ _ env h in
    let (_, w2, p2, h2) = >>=-returns _ _ env h1 in
    let (_, h3) = require-returns _ _ _ env h2 in
    let (sizes, h4) = require-returns _ _ _ env h3 in
    let (_, w5, p5, h5) = >>=-returns (lift (check_paths _ _ _ _)) _ env h4 in
    let (bytes, _) = require-returns _ _ _ env h5 in
    let paths =
      check_paths-Scoped (text_list (elements (get item "writePaths"))) 0 []
        (elements (get committed "changedPaths")) (ap (λ r. r.0) p5) in
    record {
      some_path = (file_bounds _ _ _ sizes).0;
      max_files = (file_bounds _ _ _ sizes).1;
      max_bytes = byte_bound (get committed "changedBytes") _ bytes;
      distinct = paths.distinct;
      owned = paths.inside;
    }

-- A writer's result comes from a delta that keeps to its scope: at least one path and at most
-- `maxFiles`, at most `maxBytes` bytes, no path twice up to case, and every path inside one of the
-- paths that the plan assigns to the writer.
pub commit_writer_result-InScope :
    (cfg : Config) (a : Attempt) (item workspace receipt : Value) (env : Env) (w w' : World)
    (result : Value)
    → commit_writer_result cfg a item workspace receipt env w ≡ (ok result, w')
    → (committed : Value) × (result ≡ commit_record receipt item committed)
      × InScope cfg item committed
unfolding commit_writer_result
commit_writer_result-InScope cfg a item workspace receipt env w w' result h =
    let (_, w1, p1, h1) = >>=-returns _ _ env h in
    let (committed, w2, p2, h2) = >>=-returns _ _ env h1 in
    let (_, w3, p3, h3) = >>=-returns _ _ env h2 in
    let (_, w4, p4, h4) = >>=-returns _ _ env h3 in
    let (_, w5, p5, h5) = >>=-returns _ _ env h4 in
    (
      committed,
      (pure-returns _ env h5).0,
      check_commit-InScope cfg item receipt committed env w2 w3 _ p3,
    )
