-- ===== src/Server/Properties.antt =====
-- ReadProperties and UpdateProperties of backend/server/properties.go, on the text of the file as its
-- code points. A Go map is a list of pairs that is searched from the front.
pub mod Lines
pub mod Entries
pub mod Find
pub mod Updates
pub mod Files
pub mod Tests
use realmrunner.Common.{ℕ, ◌+◌, ◌&&◌, ◌||◌, ◌==◌, ltb, Bool, true, false, Option, none, some}
use realmrunner.Common.{List, [], ◌∷◌, ◌++◌, map, if◌then◌else◌}
use realmrunner.Common.Text.{trim_space}
pub use realmrunner.Common.Text.{text_eq}

-- What `os.Open` and `os.ReadFile` find.
pub data File : Type 0 where
  missing unreadable : File
  contents : List ℕ → File

abbrev pub Properties : Type 0
Properties = List (List ℕ × List ℕ)

abbrev pub newline : ℕ
newline = 10

abbrev pub equals : ℕ
equals = b'='

abbrev pub hash : ℕ
hash = b'#'

abbrev pub is_nil {ℓ} : {A : Type ℓ} → List A → Bool
is_nil [] = true
is_nil (x ∷ xs) = false

-- `<` on Go strings
abbrev pub text_lt : List ℕ → List ℕ → Bool
text_lt cs [] = false
text_lt [] (d ∷ ds) = true
text_lt (c ∷ cs) (d ∷ ds) = ltb c d || (c == d) && text_lt cs ds

unfoldable pub find : List ℕ → Properties → Option (List ℕ)
find key [] = none
find key (entry ∷ props) =
    let later = find key props in if text_eq entry.0 key then some entry.1 else later

-- `delete`
unfoldable pub remove : List ℕ → Properties → Properties
remove key [] = []
remove key (entry ∷ props) =
    let later = remove key props in if text_eq entry.0 key then later else entry ∷ later

abbrev pub prefix_first : ℕ → List (List ℕ) → List (List ℕ)
prefix_first c [] = (c ∷ []) ∷ []
prefix_first c (line ∷ lines) = (c ∷ line) ∷ lines

-- `strings.Split` at newlines
unfoldable pub split_lines : List ℕ → List (List ℕ)
split_lines [] = [] ∷ []
split_lines (c ∷ cs) =
    let later = split_lines cs in if c == newline then [] ∷ later else prefix_first c later

-- `strings.Join` with newlines
unfoldable pub join_lines : List (List ℕ) → List ℕ
join_lines [] = []
join_lines (line ∷ []) = line
join_lines (line ∷ next ∷ lines) = line ++ newline ∷ join_lines (next ∷ lines)

-- `strings.TrimRight` of newlines
unfoldable pub trim_newlines : List ℕ → List ℕ
trim_newlines [] = []
trim_newlines (c ∷ cs) =
    let rest = trim_newlines cs in if c == newline && is_nil rest then [] else c ∷ rest

-- `strings.Cut` at the first `=`
unfoldable pub cut : List ℕ → Option (List ℕ × List ℕ)
cut [] = none
cut (c ∷ cs) =
    if c == equals
    then some ([], cs)
    else elim (cut cs) [ none ↦ none | some (before, after) ↦ some (c ∷ before, after) ]

abbrev pub starts_hash : List ℕ → Bool
starts_hash [] = false
starts_hash (c ∷ cs) = c == hash

abbrev pub trimmed_pair : Option (List ℕ × List ℕ) → Option (List ℕ × List ℕ)
trimmed_pair none = none
trimmed_pair (some (before, after)) = some (trim_space before, trim_space after)

-- What both functions make of a line: no property if it is blank, a comment or without `=`.
unfoldable pub parse_line : List ℕ → Option (List ℕ × List ℕ)
unfolding cut trim_space
parse_line line =
    let trimmed = trim_space line in
    if is_nil trimmed || starts_hash trimmed then none else trimmed_pair (cut trimmed)

-- The number of bytes that UTF-8 has for a text.
unfoldable pub utf8_length : List ℕ → ℕ
utf8_length [] = 0
utf8_length (c ∷ cs) =
    let rest = utf8_length cs in
    if ltb c 0x80
    then 1 + rest
    else if ltb c 0x800
    then 2 + rest
    else if ltb c 0x10000
    then 3 + rest
    else 4 + rest

-- A line that `bufio.Scanner` refuses as too long.
unfoldable pub has_long : List (List ℕ) → Bool
unfolding utf8_length
has_long [] = false
has_long (line ∷ lines) = ltb 65535 (utf8_length line) || has_long lines

-- The carriage return that `bufio.ScanLines` takes off a line.
unfoldable pub drop_cr : List ℕ → List ℕ
drop_cr [] = []
drop_cr (c ∷ cs) = let rest = drop_cr cs in if c == 13 && is_nil cs then [] else c ∷ rest

-- The lines of `bufio.ScanLines`: there is none behind the last newline if nothing stands there.
unfoldable pub scan_lines : List (List ℕ) → List (List ℕ)
unfolding drop_cr
scan_lines [] = []
scan_lines (line ∷ []) = if is_nil line then [] else drop_cr line ∷ []
scan_lines (line ∷ next ∷ lines) = drop_cr line ∷ scan_lines (next ∷ lines)

abbrev pub add_entry : Option (List ℕ × List ℕ) → Properties → Properties
add_entry none props = props
add_entry (some entry) props = entry ∷ props

-- The loop of ReadProperties.
unfoldable pub read_lines : Properties → List (List ℕ) → Properties
unfolding parse_line
read_lines props [] = props
read_lines props (line ∷ lines) = read_lines (add_entry (parse_line line) props) lines

-- ReadProperties; `none` is its error.
unfoldable pub read_properties : File → Option Properties
unfolding read_lines scan_lines split_lines has_long
read_properties missing = some []
read_properties unreadable = none
read_properties (contents text) =
    if has_long (split_lines text)
    then none
    else some (read_lines [] (scan_lines (split_lines text)))

abbrev pub render : List ℕ → List ℕ → List ℕ
render key value = key ++ equals ∷ value

-- `remaining[key]`, which is empty for a key that is not there.
abbrev pub value_or_empty : Option (List ℕ) → List ℕ
value_or_empty none = []
value_or_empty (some value) = value

unfoldable pub insert_sorted : List ℕ → List (List ℕ) → List (List ℕ)
insert_sorted key [] = key ∷ []
insert_sorted key (k ∷ keys) =
    let later = insert_sorted key keys in if text_lt k key then k ∷ later else key ∷ k ∷ keys

-- `sort.Strings`
unfoldable pub sort_strings : List (List ℕ) → List (List ℕ)
unfolding insert_sorted
sort_strings [] = []
sort_strings (key ∷ keys) = insert_sorted key (sort_strings keys)

abbrev pub keys_of : Properties → List (List ℕ)
keys_of [] = []
keys_of (entry ∷ props) = entry.0 ∷ keys_of props

-- The lines for the keys that the file does not have.
unfoldable pub appended : Properties → List (List ℕ)
unfolding sort_strings find
appended remaining =
    map (λ key. render key (value_or_empty (find key remaining))) (sort_strings (keys_of remaining))

-- The two loops of UpdateProperties: the new lines.
unfoldable pub update_lines : Properties → List (List ℕ) → List (List ℕ)
unfolding appended parse_line find remove
update_lines remaining [] = appended remaining
update_lines remaining (line ∷ lines) = elim (parse_line line) [
  | none ↦ line ∷ update_lines remaining lines
  | some (key, _) ↦ elim (find key remaining) [
    | none ↦ line ∷ update_lines remaining lines
    | some value ↦ render key value ∷ update_lines (remove key remaining) lines
  ]
]

-- `strings.HasSuffix` of a newline
abbrev pub ends_line : List ℕ → Bool
ends_line [] = false
ends_line (c ∷ []) = c == newline
ends_line (c ∷ d ∷ cs) = ends_line (d ∷ cs)

abbrev pub finish : List ℕ → List ℕ
finish output = if ends_line output then output else output ++ newline ∷ []

-- UpdateProperties, where the write succeeds: the file that it leaves, or `none` for its error.
unfoldable pub update_properties : Properties → File → Option File
unfolding update_lines join_lines split_lines trim_newlines
update_properties [] file = some file
update_properties (u ∷ us) unreadable = none
update_properties (u ∷ us) missing =
    some (contents (finish (join_lines (update_lines (u ∷ us) []))))
update_properties (u ∷ us) (contents text) =
    some (contents (finish (join_lines (update_lines (u ∷ us) (split_lines (trim_newlines text))))))
