-- ===== src/FilePaths.antt =====
-- validateFilePath of backend/api/fileutil.go. A path is whether it begins with a slash, and its parts
-- between slashes; what `filepath.EvalSymlinks` finds is an argument.
pub mod Inside
mod Tests
use realmrunner.Common.{ℕ, ◌==◌, ◌&&◌, ◌||◌, not, String, Bool, true, false, Option, none, some}
use realmrunner.Common.{List, [], ◌∷◌, ◌++◌, if◌then◌else◌}
use realmrunner.Common.Text.{codes, text_eq}

abbrev pub Part : Type 0
Part = List ℕ

abbrev prefix_first : ℕ → List Part → List Part
prefix_first c [] = (c ∷ []) ∷ []
prefix_first c (part ∷ parts) = (c ∷ part) ∷ parts

unfoldable pub split_slashes : List ℕ → List Part
split_slashes [] = [] ∷ []
split_slashes (c ∷ cs) =
    let later = split_slashes cs in if c == b'/' then [] ∷ later else prefix_first c later

-- `filepath.IsAbs`
abbrev pub is_abs : List ℕ → Bool
is_abs [] = false
is_abs (c ∷ cs) = c == b'/'

-- The parts that `filepath.Clean` leaves out, and the one that goes up.
abbrev pub is_skipped : Part → Bool
is_skipped part = text_eq part [] || text_eq part (codes ".")

abbrev pub is_up : Part → Bool
is_up part = text_eq part (codes "..")

abbrev pub go_up : Bool → List Part → List Part
go_up true [] = []
go_up false [] = codes ".." ∷ []
go_up rooted (part ∷ parts) = if is_up part then codes ".." ∷ part ∷ parts else parts

-- The loop of `filepath.Clean`, with the parts that it has kept, the last one first.
unfoldable pub clean_onto : Bool → List Part → List Part → List Part
clean_onto rooted kept [] = kept
clean_onto rooted kept (part ∷ parts) =
    let skipped = clean_onto rooted kept parts in
    let up = clean_onto rooted (go_up rooted kept) parts in
    let down = clean_onto rooted (part ∷ kept) parts in
    if is_skipped part then skipped else if is_up part then up else down

unfoldable pub turn : List Part → List Part → List Part
turn [] parts = parts
turn (part ∷ kept) parts = turn kept (part ∷ parts)

unfoldable pub clean : Bool → List Part → List Part
unfolding clean_onto turn
clean rooted parts = turn (clean_onto rooted [] parts) []

-- `strings.Contains` of two dots; a slash is between two parts, so one part has both.
abbrev pub has_dots : Part → Bool
has_dots [] = false
has_dots (c ∷ []) = false
has_dots (c ∷ d ∷ cs) = c == b'.' && d == b'.' || has_dots (d ∷ cs)

abbrev pub any_dots : List Part → Bool
any_dots [] = false
any_dots (part ∷ parts) = has_dots part || any_dots parts

abbrev pub begins_with : List Part → List Part → Bool
begins_with [] path = true
begins_with (d ∷ dir) [] = false
begins_with (d ∷ dir) (p ∷ path) = text_eq d p && begins_with dir path

-- `strings.HasPrefix` of a directory and a slash, or the directory itself. No path begins with the
-- root directory and a slash, that is with two slashes.
abbrev pub is_within : List Part → List Part → Bool
is_within [] [] = true
is_within [] (p ∷ path) = false
is_within (d ∷ dir) path = begins_with (d ∷ dir) path

-- `strings.HasPrefix`
abbrev pub starts_with : List ℕ → List ℕ → Bool
starts_with [] cs = true
starts_with (p ∷ ps) [] = false
starts_with (p ∷ ps) (c ∷ cs) = p == c && starts_with ps cs

-- `filepath.Dir`
abbrev pub parent : List Part → List Part
parent [] = []
parent (p ∷ []) = []
parent (p ∷ q ∷ path) = p ∷ parent (q ∷ path)

-- `filepath.Base`
abbrev pub base : List Part → Part
base [] = codes "."
base (p ∷ []) = p
base (p ∷ q ∷ path) = base (q ∷ path)

-- `filepath.Ext`, which is empty without a dot.
abbrev pub has_dot : List ℕ → Bool
has_dot [] = false
has_dot (c ∷ cs) = c == b'.' || has_dot cs

abbrev pub ext : List ℕ → List ℕ
ext [] = []
ext (c ∷ cs) = let later = ext cs in if c == b'.' && not (has_dot cs) then c ∷ cs else later

abbrev pub is_one_of : List ℕ → List String → Bool
is_one_of text [] = false
is_one_of text (s ∷ ss) = text_eq text (codes s) || is_one_of text ss

abbrev pub allowed_extensions : List String
allowed_extensions =
    ".properties" ∷ ".yml" ∷ ".yaml" ∷ ".json" ∷ ".toml" ∷ ".txt" ∷ ".cfg" ∷ ".conf" ∷ []

abbrev pub blocked_files : List String
blocked_files = "server.jar" ∷ []

pub data PathCheck : Type 0 where
  accepted : List Part → PathCheck
  absolute traversal outside symlink_escape blocked not_allowed : PathCheck

abbrev pub or_empty : Option (List ℕ) → List ℕ
or_empty none = []
or_empty (some text) = text

abbrev pub escapes : Option (List ℕ) → Option (List ℕ) → Bool
escapes none dir = false
escapes (some path) dir = not (starts_with (or_empty dir) path)

-- validateFilePath, in an absolute server directory
unfoldable pub validate_file_path : (List Part → Option (List ℕ)) → List Part → List ℕ → PathCheck
unfolding split_slashes clean
validate_file_path real dir requested =
    let cleaned = clean (is_abs requested) (split_slashes requested) in
    let full = clean true (dir ++ cleaned) in
    if is_abs requested
    then absolute
    else if any_dots cleaned
    then traversal
    else if not (is_within dir full)
    then outside
    else if escapes (real (parent full)) (real dir)
    then symlink_escape
    else if is_one_of (base cleaned) blocked_files
    then blocked
    else if not (is_one_of (ext (base cleaned)) allowed_extensions)
    then not_allowed
    else accepted full
