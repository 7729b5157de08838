-- ===== src/Server/Properties/Find.antt =====
-- Searching and sorting keys, for backend/server/properties.go.
use realmrunner.Common.{ℕ, ◌≡◌, ◌∙◌, refl, sym, ap, Bool, true, false, ◌||◌, arith}
use realmrunner.Common.{List, [], ◌∷◌, map, All, if◌then◌else◌, Bool-cases, Option-cases, inl, inr}
use realmrunner.Common.{Option, none, some, ◌↔◌}
use realmrunner.Common.Text.{text_eq→≡}
use realmrunner.Server.Properties.{
  Properties, parse_line, add_entry, text_eq, find, remove, read_lines, render, value_or_empty,
  insert_sorted, sort_strings, keys_of, appended,
}
use realmrunner.Server.Properties.Entries.{IsKey, IsValue, parse_line-render}

pub text_eq_refl : (a : List ℕ) → text_eq a a ≡ true
text_eq_refl [] = refl
text_eq_refl (c ∷ cs) = rw (text_eq_refl cs) (ground arith)

pub text_eq_iff : (a b : List ℕ) → (text_eq a b ≡ true) ↔ (a ≡ b)
text_eq_iff a b = (text_eq→≡ a b, λ e. rw e (text_eq_refl b))

pub find-remove :
    (gone key : List ℕ) (props : Properties)
    → find key (remove gone props) ≡ (if text_eq gone key then none else find key props)
unfolding find remove
find-remove gone key [] = ground arith
find-remove gone key (entry ∷ props) = ground (
  arith,
  text_eq_iff gone key,
  text_eq_iff entry.0 gone,
  text_eq_iff entry.0 key,
  find-remove gone key props,
)

-- Every key and value can stand in a line.
abbrev pub AreLines : Properties → Type 0
AreLines props = All (λ e. IsKey e.0 × IsValue e.1) props

pub find-AreLines :
    (key value : List ℕ) (props : Properties)
    → AreLines props
    → find key props ≡ some value
    → IsKey key × IsValue value
unfolding find
find-AreLines key value [] h e = cc
find-AreLines key value (entry ∷ props) ((k, v), h) e = elim (Bool-cases (text_eq entry.0 key)) [
  | inl t ↦
      let held : some entry.1 ≡ some value = rw t at e in
      let same : entry.1 ≡ value = cc in (rw (← text_eq→≡ entry.0 key t) k, rw (← same) v)
  | inr t ↦ find-AreLines key value props h (rw t at e)
]

pub remove-AreLines :
    (gone : List ℕ) (props : Properties) → AreLines props → AreLines (remove gone props)
unfolding remove
remove-AreLines gone [] h = tt
remove-AreLines gone (entry ∷ props) (he, h) = elim (Bool-cases (text_eq entry.0 gone)) [
  | inl t ↦ rw (remove, t) (remove-AreLines gone props h)
  | inr t ↦ rw (remove, t) (he, remove-AreLines gone props h)
]

-- One of the keys.
abbrev pub has_key : List ℕ → List (List ℕ) → Bool
has_key key [] = false
has_key key (k ∷ ks) = text_eq k key || has_key key ks

abbrev pub is_found : Option (List ℕ) → Bool
is_found none = false
is_found (some value) = true

has_key-keys_of :
    (key : List ℕ) (props : Properties) → has_key key (keys_of props) ≡ is_found (find key props)
unfolding find
has_key-keys_of key [] = refl
has_key-keys_of key (entry ∷ props) = ground (arith, has_key-keys_of key props)

has_key-insert :
    (key new : List ℕ) (ks : List (List ℕ))
    → has_key key (insert_sorted new ks) ≡ has_key key (new ∷ ks)
unfolding insert_sorted
has_key-insert key new [] = refl
has_key-insert key new (k ∷ ks) = ground (arith, has_key-insert key new ks)

pub has_key-sort :
    (key : List ℕ) (ks : List (List ℕ)) → has_key key (sort_strings ks) ≡ has_key key ks
unfolding sort_strings
has_key-sort key [] = refl
has_key-sort key (k ∷ ks) =
    has_key-insert key k (sort_strings ks) ∙ ap (λ b. text_eq k key || b) (has_key-sort key ks)

-- What all keys of a list have, that can be found in some properties.
abbrev pub Described : Properties → List ℕ → Type 0
Described props key = IsKey key × IsValue (value_or_empty (find key props))

All-has_key {ℓ} :
    {P : List ℕ → Type ℓ} (ks : List (List ℕ))
    → ((key : List ℕ) → has_key key ks ≡ true → P key)
    → All P ks
All-has_key [] h = tt
All-has_key (k ∷ ks) h =
    (h k (rw (text_eq_refl k) refl), All-has_key ks (λ key e. h key (rw e (ground arith))))

described :
    (props : Properties) (key : List ℕ)
    → AreLines props
    → is_found (find key props) ≡ true
    → Described props key
described props key h found = elim (Option-cases (find key props)) [
  | inl e ↦ absurd (ground (arith, e))
  | inr (v, e) ↦ rw e (find-AreLines key v props h e)
]

pub appended-Described :
    (props : Properties) → AreLines props → All (Described props) (sort_strings (keys_of props))
appended-Described props h = All-has_key (sort_strings (keys_of props)) (λ key e.
    described props key h (sym (has_key-sort key (keys_of props) ∙ has_key-keys_of key props) ∙ e))

-- The last value that the lines give a key.
abbrev pub read_after : List ℕ → Properties → List (List ℕ) → Option (List ℕ)
read_after key props lines = find key (read_lines props lines)

pub read_after-line :
    (key : List ℕ) (props : Properties) (line : List ℕ) (lines : List (List ℕ))
    (entry : Option (List ℕ × List ℕ))
    → parse_line line ≡ entry
    → read_after key props (line ∷ lines) ≡ read_after key (add_entry entry props) lines
unfolding read_lines
read_after-line key props line lines entry e =
    ap (λ x. find key (read_lines (add_entry x props) lines)) e

earlier :
    (props rem : Properties) (key k : List ℕ) (b : Bool)
    → (if b
        then some (value_or_empty (find key rem))
        else find key ((k, value_or_empty (find k rem)) ∷ props))
      ≡ (if text_eq k key || b then some (value_or_empty (find key rem)) else find key props)
unfolding find
earlier props rem key k b = elim (Bool-cases (text_eq k key)) [
  | inl t ↦ rw (t, text_eq→≡ k key t) (ground arith)
  | inr t ↦ rw t refl
]

find-rendered :
    (props rem : Properties) (key : List ℕ) (ks : List (List ℕ))
    → All (Described rem) ks
    → find key (read_lines props (map (λ k. render k (value_or_empty (find k rem))) ks))
      ≡ (if has_key key ks then some (value_or_empty (find key rem)) else find key props)
unfolding read_lines
find-rendered props rem key [] h = refl
find-rendered props rem key (k ∷ ks) ((hk, hv), h) =
    let v = value_or_empty (find k rem) in
    read_after-line key props (render k v) (map (λ x. render x (value_or_empty (find x rem))) ks)
      (some (k, v)) (parse_line-render k v hk hv)
    ∙ (find-rendered ((k, v) ∷ props) rem key ks h ∙ earlier props rem key k (has_key key ks))

-- The lines that UpdateProperties adds at the end say what was left over.
pub find-appended :
    (props rem : Properties) (key : List ℕ)
    → AreLines rem
    → find key (read_lines props (appended rem))
      ≡ (if is_found (find key rem) then some (value_or_empty (find key rem)) else find key props)
unfolding appended
find-appended props rem key h =
    find-rendered props rem key (sort_strings (keys_of rem)) (appended-Described rem h)
    ∙ ap (λ b. if b then some (value_or_empty (find key rem)) else find key props)
        (has_key-sort key (keys_of rem) ∙ has_key-keys_of key rem)
