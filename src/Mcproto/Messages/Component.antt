-- ===== src/Mcproto/Messages/Component.antt =====
-- What a client that parses the chat component of WriteLoginDisconnect in backend/mcproto/protocol.go
-- shows: the text of a JSON object with the one member `text`.
use realmrunner.Common.{ℕ, ◌≡◌, refl, ap, Option, none, some, List, [], ◌∷◌, ◌++◌, ◌==◌, ◌∙◌}
use realmrunner.Common.{if◌then◌else◌}
use realmrunner.Mcproto.Messages.{quote_json, chat_component}
use realmrunner.Mcproto.Messages.Json.{json_string, json_string-quote_json, when_printable}

-- What is left of some bytes behind these ones.
abbrev behind : List ℕ → List ℕ → Option (List ℕ)
behind [] cs = some cs
behind (p ∷ ps) [] = none
behind (p ∷ ps) (c ∷ cs) = if p == c then behind ps cs else none

abbrev consed : ℕ → Option (List ℕ) → Option (List ℕ)
consed c none = none
consed c (some cs) = some (c ∷ cs)

-- Bytes without the closing brace at their end.
pub unbraced : List ℕ → Option (List ℕ)
unbraced [] = none
unbraced (c ∷ []) = if c == b'}' then some [] else none
unbraced (c ∷ d ∷ cs) = consed c (unbraced (d ∷ cs))

abbrev member_text : Option (List ℕ) → Option (List ℕ)
member_text none = none
member_text (some value) = json_string value

abbrev object_text : Option (List ℕ) → Option (List ℕ)
object_text none = none
object_text (some body) = member_text (unbraced body)

-- The text of `{"text":"..."}`, where this is well formed.
pub shown_text : List ℕ → Option (List ℕ)
shown_text component =
    object_text (behind (b'{' ∷ 34 ∷ b't' ∷ b'e' ∷ b'x' ∷ b't' ∷ 34 ∷ b':' ∷ []) component)

unbraced-append : (cs : List ℕ) → unbraced (cs ++ b'}' ∷ []) ≡ some cs
unfolding unbraced
unbraced-append [] = refl
unbraced-append (c ∷ []) = refl
unbraced-append (c ∷ d ∷ cs) = ap (consed c) (unbraced-append (d ∷ cs))

-- A client shows the message of a login disconnect when that has no control character but newlines,
-- and cannot parse the component otherwise.
pub shown_text-chat_component :
    (message : List ℕ) → shown_text (chat_component message) ≡ when_printable message
unfolding shown_text chat_component
shown_text-chat_component message =
    ap member_text (unbraced-append (quote_json message)) ∙ json_string-quote_json message
