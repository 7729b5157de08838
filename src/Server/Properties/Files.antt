-- ===== src/Server/Properties/Files.antt =====
-- UpdateProperties and ReadProperties of backend/server/properties.go, one after the other.
use realmrunner.Common.{ℕ, ◌≤◌, ◌≡◌, ◌≢◌, ◌∙◌, refl, sym, ap, false}
use realmrunner.Common.{List, [], ◌∷◌, map, All, Option-cases, inl, inr}
use realmrunner.Common.{Option, none, some}
use realmrunner.Server.Properties.{
  File, contents, Properties, split_lines, join_lines, trim_newlines, find, remove, parse_line,
  has_long, read_properties, render, value_or_empty, keys_of, sort_strings, appended, update_lines,
  finish, update_properties,
}
use realmrunner.Server.Properties.Lines.{
  IsLine, cons-ne, split_lines-ne, split_lines-IsLine, read_lines-scan, read_lines-trim,
  read_lines-finish,
}
use realmrunner.Server.Properties.Entries.{render-IsLine}
use realmrunner.Server.Properties.Find.{
  AreLines, find-AreLines, remove-AreLines, Described, appended-Described, read_after,
}
use realmrunner.Server.Properties.Updates.{key_count, update_lines-keeps, update_lines-sets}

rendered-IsLine :
    (rem : Properties) (ks : List (List ℕ))
    → All (Described rem) ks
    → All IsLine (map (λ k. render k (value_or_empty (find k rem))) ks)
rendered-IsLine rem [] h = tt
rendered-IsLine rem (k ∷ ks) ((hk, hv), h) = (
  render-IsLine k (value_or_empty (find k rem)) hk.key_line hv.value_line,
  rendered-IsLine rem ks h,
)

update_lines-IsLine :
    (rem : Properties) (lines : List (List ℕ))
    → AreLines rem
    → All IsLine lines
    → All IsLine (update_lines rem lines)
unfolding update_lines appended
update_lines-IsLine rem [] h hl =
    rendered-IsLine rem (sort_strings (keys_of rem)) (appended-Described rem h)
update_lines-IsLine rem (line ∷ lines) h (hl, hs) = elim (Option-cases (parse_line line)) [
  | inl p ↦ rw (update_lines, p) (hl, update_lines-IsLine rem lines h hs)
  | inr ((k, v), p) ↦ elim (Option-cases (find k rem)) [
    | inl f ↦ rw (update_lines, p) (rw f (hl, update_lines-IsLine rem lines h hs))
    | inr (new, f) ↦
        let (hk, hv) = find-AreLines k new rem h f in
        rw (update_lines, p)
          (rw f (
            render-IsLine k new hk.key_line hv.value_line,
            update_lines-IsLine (remove k rem) lines (remove-AreLines k rem h) hs,
          ))
  ]
]

-- The text that UpdateProperties writes over a text.
abbrev pub updated_text : Properties → List ℕ → List ℕ
updated_text updates text =
    finish (join_lines (update_lines updates (split_lines (trim_newlines text))))

-- The value that ReadProperties has for a key, and `none` where it fails or has none.
abbrev pub found_in : List ℕ → Option Properties → Option (List ℕ)
found_in key none = none
found_in key (some props) = find key props

pub read_properties-lines :
    (key text : List ℕ)
    → has_long (split_lines text) ≡ false
    → found_in key (read_properties (contents text)) ≡ read_after key [] (split_lines text)
unfolding read_properties
read_properties-lines key text h =
    rw (read_properties, h) (ap (find key) (read_lines-scan [] (split_lines text)))

read_after-finish :
    (key : List ℕ) (lines : List (List ℕ))
    → lines ≢ []
    → All IsLine lines
    → read_after key [] (split_lines (finish (join_lines lines))) ≡ read_after key [] lines
read_after-finish key [] ne h = absurd (ne refl)
read_after-finish key (line ∷ lines) ne h = ap (find key) (read_lines-finish [] line lines h)

nonempty : (rem : Properties) (lines : List (List ℕ)) → lines ≢ [] → update_lines rem lines ≢ []
unfolding update_lines
nonempty rem [] ne h = ne refl
nonempty rem (line ∷ lines) ne h = elim (Option-cases (parse_line line)) [
  | inl p ↦ cons-ne line (update_lines rem lines) (rw (update_lines, p) at h)
  | inr ((k, v), p) ↦ elim (Option-cases (find k rem)) [
    | inl f ↦ cons-ne line (update_lines rem lines) (rw f at (rw (update_lines, p) at h))
    | inr (new, f) ↦
        cons-ne (render k new) (update_lines (remove k rem) lines)
          (rw f at (rw (update_lines, p) at h))
  ]
]

update_lines-ne :
    (rem : Properties) (text : List ℕ) → update_lines rem (split_lines (trim_newlines text)) ≢ []
update_lines-ne rem text h =
    nonempty rem (split_lines (trim_newlines text)) (split_lines-ne (trim_newlines text)) h

updated_text-reads :
    (key text : List ℕ) (updates : Properties)
    → AreLines updates
    → has_long (split_lines (updated_text updates text)) ≡ false
    → found_in key (read_properties (contents (updated_text updates text)))
      ≡ read_after key [] (update_lines updates (split_lines (trim_newlines text)))
updated_text-reads key text updates h short =
    read_properties-lines key (updated_text updates text) short
    ∙ read_after-finish key (update_lines updates (split_lines (trim_newlines text)))
        (update_lines-ne updates text)
        (update_lines-IsLine updates (split_lines (trim_newlines text)) h
          (split_lines-IsLine (trim_newlines text)))

-- A key that is set, and that stands in at most one line of the file, reads as its new value: keys
-- and values without spaces at their ends and without newlines, keys without `=` and without `#` in
-- front, and no line of 65536 bytes or more in the file that is written.
pub read_properties-sets :
    (key value text : List ℕ) (u : List ℕ × List ℕ) (us : Properties)
    → AreLines (u ∷ us)
    → find key (u ∷ us) ≡ some value
    → key_count key (split_lines (trim_newlines text)) ≤ 1
    → has_long (split_lines (updated_text (u ∷ us) text)) ≡ false
    → (file : File) × (update_properties (u ∷ us) (contents text) ≡ some file)
      × (found_in key (read_properties file) ≡ some value)
unfolding update_properties
read_properties-sets key value text u us h e once short = (
  contents (updated_text (u ∷ us) text),
  refl,
  updated_text-reads key text (u ∷ us) h short
      ∙ update_lines-sets key value (u ∷ us) [] (split_lines (trim_newlines text)) h e once,
)

-- A key that is not set reads as it did, whatever the file holds, under the same conditions on the
-- updates and with no line of 65536 bytes or more before and after.
pub read_properties-keeps :
    (key text : List ℕ) (u : List ℕ × List ℕ) (us : Properties)
    → AreLines (u ∷ us)
    → find key (u ∷ us) ≡ none
    → has_long (split_lines text) ≡ false
    → has_long (split_lines (updated_text (u ∷ us) text)) ≡ false
    → (file : File) × (update_properties (u ∷ us) (contents text) ≡ some file)
      × (found_in key (read_properties file) ≡ found_in key (read_properties (contents text)))
unfolding update_properties
read_properties-keeps key text u us h e short short' = (
  contents (updated_text (u ∷ us) text),
  refl,
  updated_text-reads key text (u ∷ us) h short'
      ∙ (update_lines-keeps key (u ∷ us) [] [] (split_lines (trim_newlines text)) h e refl
          ∙ (ap (find key) (read_lines-trim [] text) ∙ sym (read_properties-lines key text short))),
)
