-- ===== src/Server/Properties/Entries.antt =====
-- A property that backend/server/properties.go writes is the one that it reads from that line.
use realmrunner.Common.{ℕ, ◌≤◌, ◌&&◌, ◌||◌, ◌==◌, ◌≡◌, ◌∙◌, refl, ap, Bool, true, false, arith}
use realmrunner.Common.{List, [], ◌∷◌, length, if◌then◌else◌, Bool-cases, inl, inr}
use realmrunner.Common.{some}
use realmrunner.Common.Text.{is_space, trim_left, trim_right, trim_space}
use realmrunner.Server.Properties.{newline, equals, is_nil, starts_hash, cut, parse_line, render}
use realmrunner.Server.Properties.Lines.{IsLine}

-- No spaces at either end.
pub record IsTrimmed (text : List ℕ) : Type 0 where
  pub at_front : trim_left text ≡ text
  pub at_end : trim_right text ≡ text

abbrev pub has_equals : List ℕ → Bool
has_equals [] = false
has_equals (c ∷ cs) = if c == equals then true else has_equals cs

-- A key that a line of the file can hold.
pub record IsKey (key : List ℕ) : Type 0 where
  pub key_trimmed : IsTrimmed key
  pub key_line : IsLine key
  pub no_equals : has_equals key ≡ false
  pub no_comment : starts_hash key ≡ false

-- A value that a line of the file can hold.
pub record IsValue (value : List ℕ) : Type 0 where
  pub value_trimmed : IsTrimmed value
  pub value_line : IsLine value

length-trim_left : (text : List ℕ) → length (trim_left text) ≤ length text
unfolding trim_left
length-trim_left [] = omega arith
length-trim_left (c ∷ cs) = ground (arith, length-trim_left cs)

first_visible : (c : ℕ) (cs : List ℕ) → trim_left (c ∷ cs) ≡ c ∷ cs → is_space c ≡ false
unfolding trim_left
first_visible c cs h = elim (Bool-cases (is_space c)) [
  | inr e ↦ e
  | inl e ↦
      let same : trim_left cs ≡ c ∷ cs = rw e at h in
      absurd (omega (arith, length-trim_left cs, ap length same))
]

keeps : (b : Bool) (text : List ℕ) → (if b && false then [] else text) ≡ text
keeps b text = ground arith

trim_left-render :
    (key value : List ℕ) → trim_left key ≡ key → trim_left (render key value) ≡ render key value
unfolding trim_left
trim_left-render [] value h = refl
trim_left-render (c ∷ cs) value h = rw (first_visible c cs h) refl

trim_right-render :
    (key value : List ℕ)
    → trim_right value ≡ value
    → trim_right (render key value) ≡ render key value
unfolding trim_right
trim_right-render [] value h = ap (λ v. equals ∷ v) h
trim_right-render (c ∷ []) value h =
    keeps (is_space c) (c ∷ equals ∷ trim_right value) ∙ ap (λ v. c ∷ equals ∷ v) h
trim_right-render (c ∷ d ∷ cs) value h =
    rw (trim_right, trim_right-render (d ∷ cs) value h)
      (keeps (is_space c) (render (c ∷ d ∷ cs) value))

cut-render :
    (key value : List ℕ) → has_equals key ≡ false → cut (render key value) ≡ some (key, value)
unfolding cut
cut-render [] value h = refl
cut-render (c ∷ cs) value h = elim (Bool-cases (c == equals)) [
  | inl e ↦ absurd (ground (arith, e))
  | inr e ↦ rw (cut, e) (rw (cut-render cs value (rw e at h)) refl)
]

trim_space-IsTrimmed : (text : List ℕ) → IsTrimmed text → trim_space text ≡ text
unfolding trim_space
trim_space-IsTrimmed text h = ap trim_right h.at_front ∙ h.at_end

not_blank :
    (key value : List ℕ)
    → starts_hash key ≡ false
    → (is_nil (render key value) || starts_hash (render key value)) ≡ false
not_blank [] value h = refl
not_blank (c ∷ cs) value h = h

trim_space-render :
    (key value : List ℕ)
    → IsKey key
    → IsValue value
    → trim_space (render key value) ≡ render key value
unfolding trim_space
trim_space-render key value k v =
    ap trim_right (trim_left-render key value k.key_trimmed.at_front)
    ∙ trim_right-render key value v.value_trimmed.at_end

-- The line that UpdateProperties writes for a key and a value reads back as these.
pub parse_line-render :
    (key value : List ℕ)
    → IsKey key
    → IsValue value
    → parse_line (render key value) ≡ some (key, value)
unfolding parse_line
parse_line-render key value k v =
    rw (parse_line, trim_space-render key value k v)
      (rw (not_blank key value k.no_comment, cut-render key value k.no_equals)
        (rw (trim_space-IsTrimmed key k.key_trimmed, trim_space-IsTrimmed value v.value_trimmed)
          refl))

pub render-IsLine : (key value : List ℕ) → IsLine key → IsLine value → IsLine (render key value)
render-IsLine [] value k v = v
render-IsLine (c ∷ cs) value k v = elim (Bool-cases (c == newline)) [
  | inl e ↦ absurd (ground (arith, e))
  | inr e ↦ rw e (render-IsLine cs value (rw e at k) v)
]
