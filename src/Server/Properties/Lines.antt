-- ===== src/Server/Properties/Lines.antt =====
-- Splitting a text into lines and joining them, for backend/server/properties.go.
use realmrunner.Common.{ℕ, ◌==◌, ◌≡◌, ◌≢◌, ◌∙◌, refl, sym, ap, Bool, true, false, arith}
use realmrunner.Common.{List, [], ◌∷◌, ◌++◌, append_assoc, All, if◌then◌else◌, Bool-cases, inl, inr}
use realmrunner.Common.Text.{is_space, trim_left, trim_right, trim_space}
use realmrunner.Server.Properties.{
  Properties, newline, is_nil, prefix_first, split_lines, join_lines, trim_newlines, drop_cr,
  scan_lines, parse_line, add_entry, read_lines, ends_line, finish,
}

-- No newline in it.
abbrev pub is_line : List ℕ → Bool
is_line [] = true
is_line (c ∷ cs) = if c == newline then false else is_line cs

abbrev pub IsLine : List ℕ → Type 0
IsLine line = is_line line ≡ true

-- A line, and a text behind it.
pub split_lines-line :
    (line rest : List ℕ)
    → IsLine line
    → split_lines (line ++ newline ∷ rest) ≡ line ∷ split_lines rest
unfolding split_lines
split_lines-line [] rest h = refl
split_lines-line (c ∷ cs) rest h = elim (Bool-cases (c == newline)) [
  | inl e ↦ absurd (ground (arith, e))
  | inr e ↦ rw (split_lines, e) (rw (split_lines-line cs rest (rw e at h)) refl)
]

pub split_lines-last : (line : List ℕ) → IsLine line → split_lines line ≡ line ∷ []
unfolding split_lines
split_lines-last [] h = refl
split_lines-last (c ∷ cs) h = elim (Bool-cases (c == newline)) [
  | inl e ↦ absurd (ground (arith, e))
  | inr e ↦ rw (split_lines, e) (rw (split_lines-last cs (rw e at h)) refl)
]

pub split_lines-join :
    (line : List ℕ) (lines : List (List ℕ))
    → All IsLine (line ∷ lines)
    → split_lines (join_lines (line ∷ lines)) ≡ line ∷ lines
unfolding join_lines
split_lines-join line [] h = split_lines-last line h.0
split_lines-join line (next ∷ lines) h =
    split_lines-line line (join_lines (next ∷ lines)) h.0
    ∙ ap (λ ls. line ∷ ls) (split_lines-join next lines h.1)

pub split_lines-join-newline :
    (line : List ℕ) (lines : List (List ℕ))
    → All IsLine (line ∷ lines)
    → split_lines (join_lines (line ∷ lines) ++ newline ∷ []) ≡ (line ∷ lines) ++ [] ∷ []
unfolding join_lines
split_lines-join-newline line [] h = split_lines-line line [] h.0 ∙ unfold split_lines in refl
split_lines-join-newline line (next ∷ lines) h = rw append_assoc (
    split_lines-line line (join_lines (next ∷ lines) ++ newline ∷ []) h.0
    ∙ ap (λ ls. line ∷ ls) (split_lines-join-newline next lines h.1))

prefix_first-IsLine :
    (c : ℕ) (lines : List (List ℕ))
    → (c == newline) ≡ false
    → All IsLine lines
    → All IsLine (prefix_first c lines)
prefix_first-IsLine c [] e h = (rw e refl, tt)
prefix_first-IsLine c (line ∷ lines) e (hl, h) = (rw e hl, h)

-- The lines of a text have no newline in them.
pub split_lines-IsLine : (text : List ℕ) → All IsLine (split_lines text)
unfolding split_lines
split_lines-IsLine [] = (refl, tt)
split_lines-IsLine (c ∷ cs) = elim (Bool-cases (c == newline)) [
  | inl e ↦ rw (split_lines, e) (refl, split_lines-IsLine cs)
  | inr e ↦ rw (split_lines, e) (prefix_first-IsLine c (split_lines cs) e (split_lines-IsLine cs))
]

drop_cr-cons : (c d : ℕ) (ds : List ℕ) → drop_cr (c ∷ d ∷ ds) ≡ c ∷ drop_cr (d ∷ ds)
unfolding drop_cr
drop_cr-cons c d ds = ground arith

trim_right-drop_cr : (line : List ℕ) → trim_right (drop_cr line) ≡ trim_right line
unfolding drop_cr trim_right is_space
trim_right-drop_cr [] = refl
trim_right-drop_cr (c ∷ []) = ground arith
trim_right-drop_cr (c ∷ d ∷ ds) =
    ap trim_right (drop_cr-cons c d ds) ∙ rw (trim_right, trim_right-drop_cr (d ∷ ds)) refl

-- Trimming takes a carriage return off as well.
trim_space-drop_cr : (line : List ℕ) → trim_space (drop_cr line) ≡ trim_space line
unfolding trim_space trim_left drop_cr trim_right is_space
trim_space-drop_cr [] = refl
trim_space-drop_cr (c ∷ []) = ground arith
trim_space-drop_cr (c ∷ d ∷ ds) =
    ap trim_space (drop_cr-cons c d ds) ∙ elim (Bool-cases (is_space c)) [
      | inl e ↦ rw (trim_space, trim_left, e) (trim_space-drop_cr (d ∷ ds))
      | inr e ↦
          rw (trim_space, trim_left, e)
            (ap trim_right (sym (drop_cr-cons c d ds)) ∙ trim_right-drop_cr (c ∷ d ∷ ds))
    ]

parse_line-drop_cr : (line : List ℕ) → parse_line (drop_cr line) ≡ parse_line line
unfolding parse_line
parse_line-drop_cr line = rw (parse_line, trim_space-drop_cr line) refl

-- ReadProperties gets the same from the lines of the scanner as from those of `strings.Split`.
pub read_lines-scan :
    (props : Properties) (lines : List (List ℕ))
    → read_lines props (scan_lines lines) ≡ read_lines props lines
unfolding read_lines scan_lines
read_lines-scan props [] = refl
read_lines-scan props ([] ∷ []) =
    unfold parse_line in unfold trim_space in unfold trim_left in unfold trim_right in refl
read_lines-scan props ((c ∷ cs) ∷ []) = ap (λ e. add_entry e props) (parse_line-drop_cr (c ∷ cs))
read_lines-scan props (line ∷ next ∷ lines) =
    ap (λ e. read_lines (add_entry e props) (scan_lines (next ∷ lines))) (parse_line-drop_cr line)
    ∙ (read_lines-scan (add_entry (parse_line line) props) (next ∷ lines))

-- Blank lines at the end say nothing.
pub read_lines-blanks :
    (props : Properties) (lines blanks : List (List ℕ))
    → All (λ b. b ≡ []) blanks
    → read_lines props (lines ++ blanks) ≡ read_lines props lines
unfolding read_lines
read_lines-blanks props [] [] h = refl
read_lines-blanks props [] (b ∷ bs) (hb, h) = rw hb (
    unfold parse_line in
    unfold trim_space in unfold trim_left in unfold trim_right in read_lines-blanks props [] bs h)
read_lines-blanks props (line ∷ lines) bs h =
    read_lines-blanks (add_entry (parse_line line) props) lines bs h

prefix_first-append :
    (c : ℕ) (lines blanks : List (List ℕ))
    → lines ≢ []
    → prefix_first c (lines ++ blanks) ≡ prefix_first c lines ++ blanks
prefix_first-append c [] blanks h = absurd (h refl)
prefix_first-append c (line ∷ lines) blanks h = refl

prefix_first-ne : (c : ℕ) (lines : List (List ℕ)) → prefix_first c lines ≢ []
prefix_first-ne c [] h = cc
prefix_first-ne c (line ∷ lines) h = cc

pub cons-ne : (line : List ℕ) (lines : List (List ℕ)) → line ∷ lines ≢ []
cons-ne line lines h = cc

is_nil→≡ : (cs : List ℕ) → is_nil cs ≡ true → cs ≡ []
is_nil→≡ [] h = refl
is_nil→≡ (c ∷ cs) h = cc

pub split_lines-ne : (text : List ℕ) → split_lines text ≢ []
unfolding split_lines
split_lines-ne [] h = cc
split_lines-ne (c ∷ cs) h = elim (Bool-cases (c == newline)) [
  | inl e ↦ cons-ne [] (split_lines cs) (rw (split_lines, e) at h)
  | inr e ↦ prefix_first-ne c (split_lines cs) ((rw (split_lines, e) at h))
]

-- Newlines at the end of a text are blank lines behind the others.
pub split_lines-trim :
    (text : List ℕ)
    → (blanks : List (List ℕ)) × (split_lines text ≡ split_lines (trim_newlines text) ++ blanks)
      × All (λ b. b ≡ []) blanks
unfolding split_lines trim_newlines
split_lines-trim [] = ([], refl, tt)
split_lines-trim (c ∷ cs) =
    let (bs, e, h) = split_lines-trim cs in
    elim (Bool-cases (c == newline)) [
      | inl n ↦ elim (Bool-cases (is_nil (trim_newlines cs))) [
        | inl z ↦
            let whole : split_lines cs ≡ [] ∷ bs =
              e ∙ ap (λ t. split_lines t ++ bs) (is_nil→≡ (trim_newlines cs) z) in
            ([] ∷ bs, rw (n, z) (ap (λ ls. [] ∷ ls) whole), (refl, h))
        | inr z ↦ (bs, rw (n, z) (rw n (ap (λ ls. [] ∷ ls) e)), h)
      ]
      | inr n ↦ (
        bs,
        rw n (
            rw n (
              ap (prefix_first c) e
              ∙ prefix_first-append c (split_lines (trim_newlines cs)) bs
                  (split_lines-ne (trim_newlines cs)))),
        h,
      )
    ]

-- What ReadProperties finds does not depend on the newlines at the end.
pub read_lines-trim :
    (props : Properties) (text : List ℕ)
    → read_lines props (split_lines (trim_newlines text)) ≡ read_lines props (split_lines text)
read_lines-trim props text =
    let (bs, e, h) = split_lines-trim text in
    sym (ap (read_lines props) e ∙ read_lines-blanks props (split_lines (trim_newlines text)) bs h)

-- The file that UpdateProperties writes for some lines reads as those lines.
pub read_lines-finish :
    (props : Properties) (line : List ℕ) (lines : List (List ℕ))
    → All IsLine (line ∷ lines)
    → read_lines props (split_lines (finish (join_lines (line ∷ lines))))
      ≡ read_lines props (line ∷ lines)
read_lines-finish props line lines h = elim (Bool-cases (ends_line (join_lines (line ∷ lines)))) [
  | inl e ↦ rw e (ap (read_lines props) (split_lines-join line lines h))
  | inr e ↦ rw e (
      ap (read_lines props) (split_lines-join-newline line lines h)
      ∙ read_lines-blanks props (line ∷ lines) ([] ∷ []) (refl, tt))
]
