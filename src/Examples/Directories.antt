-- ===== src/Examples/Directories.antt =====
-- Directories and who owns a path (src/pod-contract.mjs, src/pod-controller.mjs).
use bimo.Base.{true, false, ok, ◌≡◌, refl, split_from, split_slash, normalize, join_slash}
use bimo.Js.{str}
use bimo.Contract.Fields.{assert_text}
use bimo.Contract.Paths.{
  assert_repository_directory, directories_overlap, directory_contains, path_is_owned,
}
use bimo.Contract.Paths.Isolation.{
  disjoint_ownership, directory_contains-owned, directories_overlap_comm,
}

apart : directories_overlap "src/api" "src/api2" ≡ false
unfolding directories_overlap
apart = refl

owned : path_is_owned "src/api/index.ts" "src/api" ≡ true
unfolding path_is_owned
owned = refl

disjoint_ownership_example : path_is_owned "src/api/index.ts" "src/api2" ≡ false
unfolding split_from split_slash normalize join_slash
disjoint_ownership_example =
    disjoint_ownership "src/api" "src/api2" "src/api/index.ts" refl refl apart owned

accepted : assert_repository_directory (str "src/api") "writePath" ≡ ok tt
unfolding assert_repository_directory assert_text split_from split_slash normalize join_slash
accepted = refl

directory_contains-owned_example :
    directory_contains "src/api" "src/api/index.ts" ≡ path_is_owned "src/api/index.ts" "src/api"
directory_contains-owned_example =
    directory_contains-owned "src/api" "src/api/index.ts" "writePath" accepted

directories_overlap_comm_example :
    directories_overlap "src" "SRC/api" ≡ directories_overlap "SRC/api" "src"
directories_overlap_comm_example = directories_overlap_comm "src" "SRC/api"
