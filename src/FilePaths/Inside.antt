-- ===== src/FilePaths/Inside.antt =====
-- What validateFilePath of backend/api/fileutil.go accepts.
use realmrunner.Common.{ℕ, ◌≡◌, ◌≢◌, ◌∙◌, refl, ap, not, inl, inr, Bool, true, false}
use realmrunner.Common.{Option, List, [], ◌∷◌, ◌++◌, append-nil, All, All-append}
use realmrunner.Common.{if◌then◌else◌, Bool-cases, arith}
use realmrunner.Common.Text.{codes, text_eq→≡}
use realmrunner.FilePaths.{
  Part, split_slashes, is_abs, is_skipped, is_up, go_up, clean_onto, turn, clean, has_dots,
  any_dots, is_within, escapes, parent, base, ext, is_one_of, allowed_extensions, blocked_files,
  PathCheck, accepted, absolute, traversal, outside, symlink_escape, blocked, not_allowed,
  validate_file_path,
}

abbrev IsKept : Part → Type 0
IsKept part = is_skipped part ≡ false

-- A part that names a file or directory: not empty, and neither `.` nor `..`.
abbrev pub IsName : Part → Type 0
IsName part = (is_skipped part ≡ false) × (is_up part ≡ false)

go_up-IsKept : (rooted : Bool) (kept : List Part) → All IsKept kept → All IsKept (go_up rooted kept)
go_up-IsKept true [] h = tt
go_up-IsKept false [] h = (refl, tt)
go_up-IsKept true (part ∷ parts) (hp, h) = elim (Bool-cases (is_up part)) [
  | inl e ↦ rw e (refl, (hp, h))
  | inr e ↦ rw e h
]
go_up-IsKept false (part ∷ parts) (hp, h) = elim (Bool-cases (is_up part)) [
  | inl e ↦ rw e (refl, (hp, h))
  | inr e ↦ rw e h
]

clean_onto-IsKept :
    (rooted : Bool) (kept parts : List Part)
    → All IsKept kept
    → All IsKept (clean_onto rooted kept parts)
unfolding clean_onto
clean_onto-IsKept rooted kept [] h = h
clean_onto-IsKept rooted kept (part ∷ parts) h = elim (Bool-cases (is_skipped part)) [
  | inl e ↦ rw (clean_onto, e) (clean_onto-IsKept rooted kept parts h)
  | inr e ↦ elim (Bool-cases (is_up part)) [
    | inl u ↦
        rw (clean_onto, e, u)
          (clean_onto-IsKept rooted (go_up rooted kept) parts (go_up-IsKept rooted kept h))
    | inr u ↦ rw (clean_onto, e, u) (clean_onto-IsKept rooted (part ∷ kept) parts (e, h))
  ]
]

turn-IsKept :
    (kept parts : List Part) → All IsKept kept → All IsKept parts → All IsKept (turn kept parts)
unfolding turn
turn-IsKept [] parts h k = k
turn-IsKept (part ∷ kept) parts (hp, h) k = turn-IsKept kept (part ∷ parts) h (hp, k)

clean-IsKept : (rooted : Bool) (parts : List Part) → All IsKept (clean rooted parts)
unfolding clean
clean-IsKept rooted parts =
    turn-IsKept (clean_onto rooted [] parts) [] (clean_onto-IsKept rooted [] parts tt) tt

up-has_dots : (part : Part) → has_dots part ≡ false → is_up part ≡ false
up-has_dots part h = elim (Bool-cases (is_up part)) [
  | inr e ↦ e
  | inl e ↦ let dots : has_dots (codes "..") ≡ false = rw (text_eq→≡ part (codes "..") e) at h in cc
]

no_dots-IsName : (parts : List Part) → All IsKept parts → any_dots parts ≡ false → All IsName parts
no_dots-IsName [] h k = tt
no_dots-IsName (part ∷ parts) (hp, h) k =
    ((hp, up-has_dots part (ground (arith, k))), no_dots-IsName parts h (ground (arith, k)))

clean_onto-names :
    (rooted : Bool) (kept parts : List Part)
    → All IsName parts
    → clean_onto rooted kept parts ≡ turn parts kept
unfolding clean_onto turn
clean_onto-names rooted kept [] h = refl
clean_onto-names rooted kept (part ∷ parts) ((s, u), h) =
    rw (clean_onto, s, u) (clean_onto-names rooted (part ∷ kept) parts h)

turn-turn : (xs ys zs : List Part) → turn (turn xs ys) zs ≡ turn ys (xs ++ zs)
unfolding turn
turn-turn [] ys zs = refl
turn-turn (x ∷ xs) ys zs = turn-turn xs (x ∷ ys) zs

clean-names : (rooted : Bool) (parts : List Part) → All IsName parts → clean rooted parts ≡ parts
unfolding clean
clean-names rooted parts h =
    ap (λ x. turn x []) (clean_onto-names rooted [] parts h)
    ∙ (turn-turn parts [] [] ∙ unfold turn in append-nil parts)

if-accepted :
    (b : Bool) (x y : PathCheck) (path : List Part)
    → ((p : List Part) → x ≢ accepted p)
    → (if b then x else y) ≡ accepted path
    → (b ≡ false) × (y ≡ accepted path)
if-accepted true x y path ne e = absurd (ne path e)
if-accepted false x y path ne e = (refl, e)

accepted-path : (p q : List Part) → accepted p ≡ accepted q → q ≡ p
accepted-path p q e = cc

not-false : (b : Bool) → not b ≡ false → b ≡ true
not-false b h = ground arith

-- In a server directory that is clean itself, whatever the links are: a path that is accepted is the
-- directory followed by names only, none of them empty, `.` or `..`, and the last one is not server.jar
-- and has one of the eight extensions.
pub validate_file_path-inside :
    (real : List Part → Option (List ℕ)) (dir : List Part) (requested : List ℕ) (path : List Part)
    → All IsName dir
    → validate_file_path real dir requested ≡ accepted path
    → (names : List Part) × (path ≡ dir ++ names)
      × All IsName names
      × (is_one_of (base names) blocked_files ≡ false)
      × (is_one_of (ext (base names)) allowed_extensions ≡ true)
unfolding validate_file_path
validate_file_path-inside real dir requested path clean_dir e =
    let cleaned = clean (is_abs requested) (split_slashes requested) in
    let full = clean true (dir ++ cleaned) in
    let last =
      if not (is_one_of (ext (base cleaned)) allowed_extensions)
      then not_allowed
      else accepted full in
    let fifth = if is_one_of (base cleaned) blocked_files then blocked else last in
    let fourth = if escapes (real (parent full)) (real dir) then symlink_escape else fifth in
    let third = if not (is_within dir full) then outside else fourth in
    let second = if any_dots cleaned then traversal else third in
    let (_, e2) = if-accepted (is_abs requested) absolute second path (λ p x. cc) e in
    let (dots, e3) = if-accepted (any_dots cleaned) traversal third path (λ p x. cc) e2 in
    let (_, e4) = if-accepted (not (is_within dir full)) outside fourth path (λ p x. cc) e3 in
    let (_, e5) =
      if-accepted (escapes (real (parent full)) (real dir)) symlink_escape fifth path (λ p x. cc)
        e4 in
    let (free, e6) =
      if-accepted (is_one_of (base cleaned) blocked_files) blocked last path (λ p x. cc) e5 in
    let (fits, e7) =
      if-accepted (not (is_one_of (ext (base cleaned)) allowed_extensions)) not_allowed
        (accepted full) path (λ p x. cc) e6 in
    let names =
      no_dots-IsName cleaned (clean-IsKept (is_abs requested) (split_slashes requested)) dots in
    (
      cleaned,
      accepted-path full path e7
          ∙ clean-names true (dir ++ cleaned) (All-append IsName dir cleaned clean_dir names),
      names,
      free,
      not-false (is_one_of (ext (base cleaned)) allowed_extensions) fits,
    )
