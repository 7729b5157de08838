-- ===== src/Minecraft/Java.antt =====
-- backend/minecraft/java.go: which Java a version needs, and which installed runtime serves.
-- The file system and the environment are arguments: what the search directories hold, and the
-- value of REALMRUNNER_JAVA_<major>.
pub mod Sorted
pub mod Choice
pub mod Versions
use realmrunner.Common.{
  ℕ, zero, suc, ◌^◌, String, ◌&&◌, ◌||◌, Bool, true, false, Option, none, some,
}
use realmrunner.Common.{List, [], ◌∷◌, map, ltb, leb, ◌==◌, if◌then◌else◌, str_eq, not}
use realmrunner.Common.Text.{codes, is_digit, is_lower, trim_space, span_digits, value}

-- The digits of a group and what follows them, where there is at least one.
abbrev pub some_digits : List ℕ × List ℕ → Option (ℕ × List ℕ)
some_digits ([], rest) = none
some_digits (d ∷ ds, rest) = some (value (d ∷ ds), rest)

-- `\.(\d+)`
abbrev pub dot_group : List ℕ → Option (ℕ × List ℕ)
dot_group [] = none
dot_group (c ∷ cs) = if c == b'.' then some_digits (span_digits cs) else none

-- `(?:\.(\d+))?`: a group that is not there is empty text, which `Atoi` reads as 0.
abbrev pub or_zero : List ℕ → Option (ℕ × List ℕ) → ℕ × List ℕ
or_zero text none = (0, text)
or_zero text (some group) = group

pub record Release : Type 0 where
  pub major : ℕ
  pub minor : ℕ
  pub patch : ℕ

abbrev pub with_minor : Option (ℕ × List ℕ) → Option Release
with_minor none = none
with_minor (some (major, rest)) =
    let second = or_zero rest (dot_group rest) in
    let third = or_zero second.1 (dot_group second.1) in
    some (record { major = major; minor = second.0; patch = third.0 })

-- A match of `releaseRe` at the start of the text.
unfoldable pub match_release : List ℕ → Option Release
unfolding span_digits value
match_release v = with_minor (some_digits (span_digits v))

-- `\d+[a-z]$` behind `w`
abbrev weekly_tail : List ℕ × List ℕ → Bool
weekly_tail (d ∷ ds, c ∷ []) = is_lower c
weekly_tail _ = false

abbrev pub weekly : ℕ → ℕ → List ℕ → Option ℕ
weekly c d [] = none
weekly c d (w ∷ cs) =
    if is_digit c && is_digit d && w == b'w' && weekly_tail (span_digits cs)
    then some (value (c ∷ d ∷ []))
    else none

-- The year of a match of `snapshotRe`.
unfoldable pub match_snapshot : List ℕ → Option ℕ
unfolding span_digits value
match_snapshot (c ∷ d ∷ rest) = weekly c d rest
match_snapshot _ = none

abbrev pub java_of_release : Option Release → ℕ
java_of_release none = 21
java_of_release (some r) =
    if leb 26 r.major
    then 25
    else if r.major == 1
    then (if leb 21 r.minor
        then 21
        else if r.minor == 20 && leb 5 r.patch
        then 21
        else if leb 17 r.minor
        then 17
        else 8)
    else 21

abbrev pub java_of : Option ℕ → List ℕ → ℕ
java_of (some year) v = if leb 26 year then 25 else 21
java_of none v = java_of_release (match_release v)

unfoldable pub required_java_major : List ℕ → ℕ
unfolding match_release match_snapshot trim_space
required_java_major version = let v = trim_space version in java_of (match_snapshot v) v

-- An entry of a search directory: its name, the path of its bin/java, and whether that exists.
pub record Entry : Type 0 where
  pub name : List ℕ
  pub bin : String
  pub has_java : Bool

-- `map[int]string`
abbrev pub Runtimes : Type 0
Runtimes = List (ℕ × String)

unfoldable pub path_of : ℕ → Runtimes → Option String
path_of m [] = none
path_of m ((k, p) ∷ rs) = if k == m then some p else path_of m rs

-- The first run of digits in the text.
unfoldable pub first_digits : List ℕ → List ℕ
unfolding span_digits
first_digits [] = []
first_digits (c ∷ cs) =
    let rest = first_digits cs in if is_digit c then (span_digits (c ∷ cs)).0 else rest

abbrev positive_int : List ℕ → Option ℕ
positive_int [] = none
positive_int (d ∷ ds) = let n = value (d ∷ ds) in if ltb 0 n && ltb n (2 ^ 63) then some n else none

unfoldable pub major_from_dir_name : List ℕ → Option ℕ
unfolding first_digits value
major_from_dir_name name = positive_int (first_digits name)

abbrev add_runtime : Option ℕ → Entry → Runtimes → Runtimes
add_runtime none e rs = rs
add_runtime (some m) e rs =
    if not e.has_java then rs else elim (path_of m rs) [ none ↦ (m, e.bin) ∷ rs | some p ↦ rs ]

-- The loop over the entries of the search directories, in order: the first runtime of a major stays.
unfoldable pub collect_runtimes : Runtimes → List Entry → Runtimes
unfolding major_from_dir_name path_of
collect_runtimes rs [] = rs
collect_runtimes rs (e ∷ es) = collect_runtimes (add_runtime (major_from_dir_name e.name) e rs) es

unfoldable pub installed_java_runtimes : List Entry → Runtimes
unfolding collect_runtimes
installed_java_runtimes entries = collect_runtimes [] entries

-- `sort.Ints`
unfoldable pub insert_sorted : ℕ → List ℕ → List ℕ
insert_sorted m [] = m ∷ []
insert_sorted m (x ∷ xs) = let rest = insert_sorted m xs in if leb m x then m ∷ x ∷ xs else x ∷ rest

unfoldable pub sort_ints : List ℕ → List ℕ
unfolding insert_sorted
sort_ints [] = []
sort_ints (x ∷ xs) = insert_sorted x (sort_ints xs)

abbrev pub majors_of : Runtimes → List ℕ
majors_of rs = map (λ r. r.0) rs

unfoldable pub installed_java_majors : List Entry → List ℕ
unfolding installed_java_runtimes sort_ints
installed_java_majors entries = sort_ints (majors_of (installed_java_runtimes entries))

-- The loop of ResolveJava over the sorted majors.
unfoldable pub first_at_least : ℕ → List ℕ → Option ℕ
first_at_least required [] = none
first_at_least required (m ∷ ms) = if leb required m then some m else first_at_least required ms

abbrev pub last_of : ℕ → List ℕ → ℕ
last_of m [] = m
last_of m (x ∷ xs) = last_of x xs

pub record Resolved : Type 0 where
  pub path : String
  pub major : ℕ
  pub satisfied : Bool

-- `installed[m]`, which is "" for a missing key.
abbrev pub path_or_empty : Option String → String
path_or_empty none = ""
path_or_empty (some p) = p

abbrev fall_back : Runtimes → List ℕ → Resolved
fall_back rs [] = record { path = "java"; major = 0; satisfied = true }
fall_back rs (m ∷ ms) =
    let top = last_of m ms in
    record { path = path_or_empty (path_of top rs); major = top; satisfied = false }

abbrev pub newer : Runtimes → List ℕ → Option ℕ → Resolved
newer rs majors (some m) = record {
  path = path_or_empty (path_of m rs);
  major = m;
  satisfied = true;
}
newer rs majors none = fall_back rs majors

abbrev pub exact : ℕ → Runtimes → Option String → Resolved
exact required rs (some p) = record { path = p; major = required; satisfied = true }
exact required rs none =
    let majors = sort_ints (majors_of rs) in newer rs majors (first_at_least required majors)

unfoldable pub resolve_java : String → Runtimes → ℕ → Resolved
unfolding path_of sort_ints first_at_least
resolve_java override rs required =
    if not (str_eq override "")
    then record { path = override; major = required; satisfied = true }
    else exact required rs (path_of required rs)
