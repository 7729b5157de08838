-- ===== src/Rcon/Packet.antt =====
-- writePacket and readPacket of backend/rcon/client.go. Text is its UTF-8 bytes.
pub mod RoundTrip
use realmrunner.Common.{ℕ, ◌+◌, ◌*◌, ◌/◌, ◌%◌, ◌&&◌, ◌||◌, Bool, true, false, List, [], ◌∷◌, ◌++◌}
use realmrunner.Common.{length, take, drop, ltb, ◌==◌, if◌then◌else◌}
use realmrunner.Common.Int.{ℤ, pos, to_u32, of_u32, is_neg, pos_part}
use realmrunner.Mcproto.Stream.{Reader, ◌>>=◌, pure, fail, out_of_range, read_full}

abbrev pub type_response : ℤ
type_response = pos 0

abbrev pub type_command : ℤ
type_command = pos 2

abbrev pub type_auth : ℤ
type_auth = pos 3

abbrev pub type_auth_response : ℤ
type_auth_response = pos 2

abbrev pub max_packet_size : ℕ
max_packet_size = 4112

pub record Packet : Type 0 where
  pub id : ℤ
  pub packet_type : ℤ
  pub body : List ℕ

-- An `int32` in little-endian order, and back.
unfoldable pub put_i32 : ℤ → List ℕ
put_i32 z =
    let u = to_u32 z in (u % 256) ∷ (u / 256 % 256) ∷ (u / 65536 % 256) ∷ (u / 16777216 % 256) ∷ []

unfoldable pub get_i32 : List ℕ → ℤ
get_i32 (a ∷ b ∷ c ∷ d ∷ _) = of_u32 (a + b * 256 + c * 65536 + d * 16777216)
get_i32 _ = pos 0

abbrev is_empty : List ℕ → Bool
is_empty [] = true
is_empty (b ∷ bs) = false

-- `bytes.TrimRight(rest, "\x00")`
unfoldable pub trim_right : List ℕ → List ℕ
trim_right [] = []
trim_right (b ∷ bs) = let rest = trim_right bs in if b == 0 && is_empty rest then [] else b ∷ rest

unfoldable pub payload : Packet → List ℕ
unfolding put_i32
payload p = put_i32 p.id ++ (put_i32 p.packet_type ++ (p.body ++ 0 ∷ 0 ∷ []))

unfoldable pub write_packet : Packet → List ℕ
unfolding payload
write_packet p = put_i32 (pos (length (payload p))) ++ payload p

unfoldable pub parse_payload : List ℕ → Packet
unfolding get_i32 trim_right
parse_payload bytes = record {
  id = get_i32 (take 4 bytes);
  packet_type = get_i32 (take 4 (drop 4 bytes));
  body = trim_right (drop 8 bytes);
}

-- What follows the length prefix.
unfoldable pub read_body : ℤ → Reader Packet
unfolding parse_payload
read_body n =
    if is_neg n || ltb (pos_part n) 10 || ltb max_packet_size (pos_part n)
    then fail (out_of_range n)
    else do bytes ← read_full (pos_part n); pure (parse_payload bytes)

unfoldable pub read_packet : Reader Packet
unfolding read_body
read_packet = do head ← read_full 4; read_body (get_i32 head)
