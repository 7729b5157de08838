-- ===== src/Mcproto/Packet.antt =====
-- The string and packet framing of backend/mcproto/protocol.go. Text is its UTF-8 bytes.
pub mod RoundTrip
use realmrunner.Common.{ℕ, ◌<◌, ◌||◌, List, [], ◌∷◌, ◌++◌, length, ltb, if◌then◌else◌}
use realmrunner.Common.Int.{ℤ, pos, is_neg, pos_part}
use realmrunner.Mcproto.Stream.{Result, err, Reader, out_of_range, read_full, ◌>>=◌}
use realmrunner.Mcproto.VarInt.{write_var_int, read_var_int}

abbrev pub max_string_length : ℕ
max_string_length = 32767

abbrev pub max_packet_size : ℕ
max_packet_size = 2097152

-- The body of ReadString and ReadPacket: a length in 0 .. limit, and that many bytes.
unfoldable pub read_block : ℕ → Reader (List ℕ)
read_block limit = do
  n ← read_var_int
  if is_neg n || ltb limit (pos_part n) then (λ s. err (out_of_range n)) else read_full (pos_part n)

unfoldable pub write_string : List ℕ → List ℕ
write_string value = write_var_int (pos (length value)) ++ value

unfoldable pub read_string : Reader (List ℕ)
unfolding read_block
read_string = read_block max_string_length

unfoldable pub write_packet : List ℕ → List ℕ
write_packet body = write_var_int (pos (length body)) ++ body

unfoldable pub read_packet : Reader (List ℕ)
unfolding read_block
read_packet = read_block max_packet_size
