-- ===== src/Mcproto/Messages.antt =====
-- The packets that backend/mcproto/protocol.go writes to a client: status, pong and login
-- disconnect. Text is its UTF-8 bytes: `quoteJSON` ranges over code points, but it only looks for
-- ASCII ones and writes every other back as it was. Bytes that are no UTF-8, which it would replace, are
-- not covered.
pub mod Json
pub mod Delivery
pub mod Component
use realmrunner.Common.{ℕ, List, [], ◌∷◌, ◌++◌, ◌==◌, if◌then◌else◌}
use realmrunner.Common.Int.{pos}
use realmrunner.Mcproto.VarInt.{write_var_int}
use realmrunner.Mcproto.Packet.{write_string, write_packet}

unfoldable pub write_status_packet : List ℕ → List ℕ
write_status_packet json = write_packet (write_var_int (pos 0) ++ write_string json)

unfoldable pub write_pong_packet : List ℕ → List ℕ
write_pong_packet payload = write_packet (write_var_int (pos 1) ++ payload)

-- The bytes " \ and n.
abbrev pub quote_mark : ℕ
quote_mark = 34

abbrev pub backslash : ℕ
backslash = 92

abbrev pub newline : ℕ
newline = 10

unfoldable pub quote_rune : ℕ → List ℕ
quote_rune r =
    if r == quote_mark
    then backslash ∷ quote_mark ∷ []
    else if r == backslash
    then backslash ∷ backslash ∷ []
    else if r == newline
    then backslash ∷ b'n' ∷ []
    else r ∷ []

unfoldable pub quote_runes : List ℕ → List ℕ
unfolding quote_rune
quote_runes [] = []
quote_runes (r ∷ rs) = quote_rune r ++ quote_runes rs

unfoldable pub quote_json : List ℕ → List ℕ
unfolding quote_runes
quote_json value = quote_mark ∷ (quote_runes value ++ quote_mark ∷ [])

-- `{"text":` and `}`
abbrev pub text_open : List ℕ
text_open = 123 ∷ 34 ∷ 116 ∷ 101 ∷ 120 ∷ 116 ∷ 34 ∷ 58 ∷ []

unfoldable pub chat_component : List ℕ → List ℕ
unfolding quote_json
chat_component message = text_open ++ (quote_json message ++ 125 ∷ [])

unfoldable pub write_login_disconnect : List ℕ → List ℕ
unfolding chat_component
write_login_disconnect message =
    write_packet (write_var_int (pos 0) ++ write_string (chat_component message))
