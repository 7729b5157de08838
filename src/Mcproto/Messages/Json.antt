-- ===== src/Mcproto/Messages/Json.antt =====
-- What a JSON parser reads in the output of `quoteJSON` of backend/mcproto/protocol.go.
use realmrunner.Common.{
  ℕ, ◌≡◌, refl, ◌∙◌, append_assoc, Bool, true, false, ◌&&◌, ◌||◌, Option, none, some, List, [], ◌∷◌,
  ◌++◌,
}
use realmrunner.Common.{arith, ltb, leb, ◌==◌, if◌then◌else◌}
use realmrunner.Mcproto.Messages.{
  quote_mark, backslash, newline, quote_rune, quote_runes, quote_json,
}

-- The escapes of RFC 8259 with one letter; `\u` escapes stand for no byte that is written here.
abbrev unescape : ℕ → Option ℕ
unescape c =
    if c == quote_mark || c == backslash || c == b'/'
    then some c
    else if c == b'n'
    then some 10
    else if c == b't'
    then some 9
    else if c == b'r'
    then some 13
    else if c == b'b'
    then some 8
    else if c == b'f'
    then some 12
    else none

abbrev prepend : Option ℕ → Option (List ℕ) → Option (List ℕ)
prepend (some c) (some cs) = some (c ∷ cs)
prepend none _ = none
prepend (some c) none = none

abbrev if_empty : List ℕ → Option (List ℕ)
if_empty [] = some []
if_empty (c ∷ cs) = none

-- The text of a JSON string behind its opening quote, where that is well formed and nothing follows
-- the closing quote: RFC 8259 allows no control character in it. The flag is set behind a `\`.
pub json_text : Bool → List ℕ → Option (List ℕ)
json_text _ [] = none
json_text true (c ∷ cs) = prepend (unescape c) (json_text false cs)
json_text false (c ∷ cs) =
    let escaped = json_text true cs in
    let plain = prepend (some c) (json_text false cs) in
    if c == quote_mark
    then if_empty cs
    else if c == backslash
    then escaped
    else if ltb c 32
    then none
    else plain

pub json_string : List ℕ → Option (List ℕ)
json_string [] = none
json_string (c ∷ cs) = if c == quote_mark then json_text false cs else none

-- No control character other than a newline.
abbrev pub is_printable : List ℕ → Bool
is_printable [] = true
is_printable (c ∷ cs) = (leb 32 c || c == newline) && is_printable cs

abbrev pub when_printable : List ℕ → Option (List ℕ)
when_printable v = if is_printable v then some v else none

json_text-quote_rune :
    (r : ℕ) (rest : List ℕ)
    → json_text false (quote_rune r ++ rest)
      ≡ (if leb 32 r || r == newline then prepend (some r) (json_text false rest) else none)
unfolding json_text quote_rune
json_text-quote_rune r rest = ground arith

json_text-quote_runes :
    (v : List ℕ) → json_text false (quote_runes v ++ quote_mark ∷ []) ≡ when_printable v
unfolding quote_runes
json_text-quote_runes [] = unfold json_text in refl
json_text-quote_runes (r ∷ rs) =
    rw (append_assoc (quote_rune r) (quote_runes rs) (quote_mark ∷ [])) (
      json_text-quote_rune r (quote_runes rs ++ quote_mark ∷ [])
      ∙ rw (json_text-quote_runes rs) (ground arith))

-- A JSON parser reads back the quoted text when it has no control character but newlines, and
-- refuses the output otherwise.
pub json_string-quote_json : (v : List ℕ) → json_string (quote_json v) ≡ when_printable v
unfolding json_string quote_json
json_string-quote_json v = json_text-quote_runes v
