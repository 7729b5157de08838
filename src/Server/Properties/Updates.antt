-- ===== src/Server/Properties/Updates.antt =====
-- What ReadProperties finds in the lines that UpdateProperties of backend/server/properties.go leaves.
use realmrunner.Common.{ℕ, ◌+◌, ◌≤◌, ◌≡◌, ◌∙◌, refl, sym, ap, true, false, arith}
use realmrunner.Common.{List, [], ◌∷◌, if◌then◌else◌, Bool-cases, Option-cases, inl, inr}
use realmrunner.Common.{Option, none, some}
use realmrunner.Common.Text.{text_eq→≡}
use realmrunner.Server.Properties.{
  Properties, text_eq, find, remove, parse_line, read_lines, render, update_lines,
}
use realmrunner.Server.Properties.Entries.{parse_line-render}
use realmrunner.Server.Properties.Find.{
  find-remove, AreLines, find-AreLines, remove-AreLines, find-appended, read_after, read_after-line,
}

-- One line, by what it says and by what is left of the updates.
abbrev updated_line : List ℕ → List (List ℕ) → Properties → Option (List ℕ × List ℕ) → List (List ℕ)
updated_line line lines rem none = line ∷ update_lines rem lines
updated_line line lines rem (some (key, _)) = elim (find key rem) [
  | none ↦ line ∷ update_lines rem lines
  | some value ↦ render key value ∷ update_lines (remove key rem) lines
]

update_lines-other :
    (rem : Properties) (line : List ℕ) (lines : List (List ℕ))
    → parse_line line ≡ none
    → update_lines rem (line ∷ lines) ≡ line ∷ update_lines rem lines
unfolding update_lines
update_lines-other rem line lines e = rw (update_lines, e) refl

update_lines-kept :
    (rem : Properties) (line : List ℕ) (lines : List (List ℕ)) (key value : List ℕ)
    → parse_line line ≡ some (key, value)
    → find key rem ≡ none
    → update_lines rem (line ∷ lines) ≡ line ∷ update_lines rem lines
unfolding update_lines
update_lines-kept rem line lines key value e f = rw (update_lines, e) (rw f refl)

update_lines-changed :
    (rem : Properties) (line : List ℕ) (lines : List (List ℕ)) (key value new : List ℕ)
    → parse_line line ≡ some (key, value)
    → find key rem ≡ some new
    → update_lines rem (line ∷ lines) ≡ render key new ∷ update_lines (remove key rem) lines
unfolding update_lines
update_lines-changed rem line lines key value new e f = rw (update_lines, e) (rw f refl)

find-add :
    (key : List ℕ) (entry : List ℕ × List ℕ) (props props' : Properties)
    → find key props ≡ find key props'
    → find key (entry ∷ props) ≡ find key (entry ∷ props')
unfolding find
find-add key entry props props' e = rw (find, e) refl

find-skip :
    (key : List ℕ) (entry : List ℕ × List ℕ) (props : Properties)
    → text_eq entry.0 key ≡ false
    → find key (entry ∷ props) ≡ find key props
unfolding find
find-skip key entry props e = rw (find, e) refl

other_key :
    (key k value : List ℕ) (rem : Properties)
    → find key rem ≡ none
    → find k rem ≡ some value
    → text_eq k key ≡ false
other_key key k value rem e f = elim (Bool-cases (text_eq k key)) [
  | inr t ↦ t
  | inl t ↦
      let found : find key rem ≡ some value = rw (← text_eq→≡ k key t) f in
      absurd (ground (arith, e, found))
]

-- A key that is not updated reads as it did.
pub update_lines-keeps :
    (key : List ℕ) (rem props props' : Properties) (lines : List (List ℕ))
    → AreLines rem
    → find key rem ≡ none
    → find key props ≡ find key props'
    → read_after key props (update_lines rem lines) ≡ read_after key props' lines
update_lines-keeps key rem props props' [] h e same =
    unfold update_lines in
    (find-appended props rem key h ∙ rw e (same ∙ sym (unfold read_lines in refl)))
update_lines-keeps key rem props props' (line ∷ lines) h e same =
    elim (Option-cases (parse_line line)) [
      | inl p ↦ rw (update_lines-other rem line lines p) (
          read_after-line key props line (update_lines rem lines) none p
          ∙ (update_lines-keeps key rem props props' lines h e same
              ∙ sym (read_after-line key props' line lines none p)))
      | inr ((k, v), p) ↦ elim (Option-cases (find k rem)) [
        | inl f ↦ rw (update_lines-kept rem line lines k v p f) (
            read_after-line key props line (update_lines rem lines) (some (k, v)) p
            ∙ (update_lines-keeps key rem ((k, v) ∷ props) ((k, v) ∷ props') lines h e
                  (find-add key (k, v) props props' same)
                ∙ sym (read_after-line key props' line lines (some (k, v)) p)))
        | inr (new, f) ↦
            let (ks, vs) = find-AreLines k new rem h f in
            let apart = other_key key k new rem e f in
            rw (update_lines-changed rem line lines k v new p f) (
              read_after-line key props (render k new) (update_lines (remove k rem) lines)
                (some (k, new)) (parse_line-render k new ks vs)
              ∙ (update_lines-keeps key (remove k rem) ((k, new) ∷ props) ((k, v) ∷ props') lines
                    (remove-AreLines k rem h) (find-remove k key rem ∙ rw apart e)
                    (find-skip key (k, new) props apart
                      ∙ (same ∙ sym (find-skip key (k, v) props' apart)))
                  ∙ sym (read_after-line key props' line lines (some (k, v)) p)))
      ]
    ]

-- How many lines give the key a value.
abbrev names_key : List ℕ → Option (List ℕ × List ℕ) → ℕ
names_key key none = 0
names_key key (some (k, _)) = if text_eq k key then 1 else 0

abbrev pub key_count : List ℕ → List (List ℕ) → ℕ
key_count key [] = 0
key_count key (line ∷ lines) = names_key key (parse_line line) + key_count key lines

key_count-line :
    (key line : List ℕ) (lines : List (List ℕ)) (entry : Option (List ℕ × List ℕ))
    → parse_line line ≡ entry
    → key_count key (line ∷ lines) ≡ names_key key entry + key_count key lines
key_count-line key line lines entry p = ap (λ x. names_key key x + key_count key lines) p

read_after-absent :
    (key : List ℕ) (props : Properties) (lines : List (List ℕ))
    → key_count key lines ≡ 0
    → read_after key props lines ≡ find key props
read_after-absent key props [] h = unfold read_lines in refl
read_after-absent key props (line ∷ lines) h = elim (Option-cases (parse_line line)) [
  | inl p ↦
      read_after-line key props line lines none p
      ∙ read_after-absent key props lines (omega (arith, key_count-line key line lines none p))
  | inr ((k, v), p) ↦
      read_after-line key props line lines (some (k, v)) p
      ∙ (read_after-absent key ((k, v) ∷ props) lines
            (omega (arith, key_count-line key line lines (some (k, v)) p))
          ∙ find-skip key (k, v) props
              (ground (arith, key_count-line key line lines (some (k, v)) p)))
]

find-first :
    (key k value new : List ℕ) (rem props : Properties)
    → text_eq k key ≡ true
    → find key rem ≡ some value
    → find k rem ≡ some new
    → find key ((k, new) ∷ props) ≡ some value
unfolding find
find-first key k value new rem props t e f =
    rw (find, t) (sym f ∙ (ap (λ x. find x rem) (text_eq→≡ k key t) ∙ e))

-- An updated key that has at most one line reads as the update says.
pub update_lines-sets :
    (key value : List ℕ) (rem props : Properties) (lines : List (List ℕ))
    → AreLines rem
    → find key rem ≡ some value
    → key_count key lines ≤ 1
    → read_after key props (update_lines rem lines) ≡ some value
update_lines-sets key value rem props [] h e once =
    unfold update_lines in (find-appended props rem key h ∙ rw e refl)
update_lines-sets key value rem props (line ∷ lines) h e once =
    elim (Option-cases (parse_line line)) [
      | inl p ↦ rw (update_lines-other rem line lines p) (
          read_after-line key props line (update_lines rem lines) none p
          ∙ update_lines-sets key value rem props lines h e
              (omega (arith, key_count-line key line lines none p)))
      | inr ((k, v), p) ↦ elim (Option-cases (find k rem)) [
        | inl f ↦ rw (update_lines-kept rem line lines k v p f) (
            read_after-line key props line (update_lines rem lines) (some (k, v)) p
            ∙ update_lines-sets key value rem ((k, v) ∷ props) lines h e
                (omega (arith, key_count-line key line lines (some (k, v)) p)))
        | inr (new, f) ↦
            let (ks, vs) = find-AreLines k new rem h f in
            rw (update_lines-changed rem line lines k v new p f) (
              read_after-line key props (render k new) (update_lines (remove k rem) lines)
                (some (k, new)) (parse_line-render k new ks vs)
              ∙ (elim (Bool-cases (text_eq k key)) [
                | inl t ↦
                    let found = find-first key k value new rem props t e f in
                    let gone = find-remove k key rem ∙ rw t refl in
                    update_lines-keeps key (remove k rem) ((k, new) ∷ props) ((k, new) ∷ props)
                      lines (remove-AreLines k rem h) gone refl
                    ∙ (read_after-absent key ((k, new) ∷ props) lines
                          (ground (arith, key_count-line key line lines (some (k, v)) p))
                        ∙ found)
                | inr t ↦
                    update_lines-sets key value (remove k rem) ((k, new) ∷ props) lines
                      (remove-AreLines k rem h) (find-remove k key rem ∙ rw t e)
                      (omega (arith, key_count-line key line lines (some (k, v)) p))
              ]))
      ]
    ]
