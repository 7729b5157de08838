-- ===== src/Mcproto/Tests.antt =====
-- The theorems on backend/mcproto at concrete bytes.
use realmrunner.Common.{
  ℕ, ◌≡◌, ◌<◌, ◌≤◌, ◌≢◌, ◌+◌, Option, refl, List, [], ◌∷◌, ◌++◌, arith, length,
}
use realmrunner.Common.Int.{ℤ, pos, negsuc, IsI32}
use realmrunner.Mcproto.Stream.{ok, err, ReadError, unexpected_packet}
use realmrunner.Mcproto.VarInt.{write_var_int, read_var_int}
use realmrunner.Mcproto.VarInt.RoundTrip.{var_int_round_trip}
use realmrunner.Mcproto.Packet.{
  max_packet_size, read_string, write_string, read_packet, write_packet,
}
use realmrunner.Mcproto.Packet.RoundTrip.{read_packet_bounds}
use realmrunner.Mcproto.Handshake.{Handshake, read_handshake, encode_handshake}
use realmrunner.Mcproto.Handshake.RoundTrip.{read_handshake-encode_handshake}
use realmrunner.Mcproto.Messages.{quote_json}
use realmrunner.Mcproto.Messages.Json.{json_string, json_string-quote_json}

var_int_round_trip_example :
    read_var_int (write_var_int (negsuc 24) ++ 7 ∷ []) ≡ ok (negsuc 24, 7 ∷ [])
var_int_round_trip_example = var_int_round_trip (negsuc 24) (7 ∷ []) (omega arith)

read_packet_bounds_example : (2 ≤ max_packet_size) × (2 + 1 < 4) × (4 ≤ 2 + 1 + 5)
unfolding read_packet read_var_int realmrunner.Mcproto.VarInt.read_groups
    realmrunner.Common.Int.of_u32 realmrunner.Mcproto.Packet.read_block
    realmrunner.Mcproto.Stream.read_full
read_packet_bounds_example = read_packet_bounds (2 ∷ 8 ∷ 9 ∷ 7 ∷ []) (8 ∷ 9 ∷ []) (7 ∷ []) refl

abbrev handshake : Handshake
handshake = record {
  protocol_version = pos 765;
  server_address = 108 ∷ 111 ∷ [];
  server_port = 25565;
  next_state = pos 2;
}

read_handshake-encode_handshake_example :
    read_handshake (encode_handshake handshake ++ []) ≡ ok handshake
read_handshake-encode_handshake_example = read_handshake-encode_handshake handshake [] (record {
  version_fits = omega arith;
  address_fits = omega arith;
  port_fits = omega arith;
  state_fits = omega arith;
})

json_string-quote_json_example :
    json_string (quote_json (104 ∷ 34 ∷ 10 ∷ [])) ≡ Option.some (104 ∷ 34 ∷ 10 ∷ [])
json_string-quote_json_example = json_string-quote_json (104 ∷ 34 ∷ 10 ∷ [])
