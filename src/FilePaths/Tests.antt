-- ===== src/FilePaths/Tests.antt =====
-- The theorem on backend/api/fileutil.go at a concrete path.
use realmrunner.Common.{ℕ, ◌≡◌, refl, Option, none, true, false, List, [], ◌∷◌, ◌++◌, All}
use realmrunner.Common.Text.{codes}
use realmrunner.FilePaths.{
  Part, validate_file_path, accepted, base, ext, is_one_of, blocked_files, allowed_extensions,
}
use realmrunner.FilePaths.Inside.{IsName, validate_file_path-inside}

abbrev no_links : List Part → Option (List ℕ)
no_links path = none

abbrev server_dir : List Part
server_dir = codes "data" ∷ codes "lobby" ∷ []

abbrev ops_file : List Part
ops_file = codes "data" ∷ codes "lobby" ∷ codes "plugins" ∷ codes "ops.json" ∷ []

validate_file_path-inside_example :
    (names : List Part) × (ops_file ≡ server_dir ++ names)
    × All IsName names
    × (is_one_of (base names) blocked_files ≡ false)
    × (is_one_of (ext (base names)) allowed_extensions ≡ true)
unfolding validate_file_path realmrunner.FilePaths.split_slashes realmrunner.FilePaths.clean
    realmrunner.FilePaths.clean_onto realmrunner.FilePaths.turn
validate_file_path-inside_example =
    validate_file_path-inside no_links server_dir (codes "./plugins//ops.json") ops_file
      ((refl, refl), ((refl, refl), tt)) refl
