-- ===== src/Metrics/Ping/Request.antt =====
-- QueryServerStatus of backend/metrics/ping.go as the sleep proxy of backend/mcproto reads it.
use realmrunner.Common.{ℕ, ◌%◌, ◌≤◌, ◌≡◌, refl, arith}
use realmrunner.Common.{List, [], ◌∷◌, append-nil, length, length-append}
use realmrunner.Common.Int.{pos, negsuc}
use realmrunner.Mcproto.Stream.{ok}
use realmrunner.Mcproto.VarInt.{write_var_int}
use realmrunner.Mcproto.VarInt.Reading.{write_var_int_shape}
use realmrunner.Mcproto.Packet as Packets
use realmrunner.Mcproto.Packet.RoundTrip.{read_packet-write_packet}
use realmrunner.Mcproto.Handshake.{Handshake, encode_handshake, read_handshake, put_u16}
use realmrunner.Mcproto.Handshake.RoundTrip.{Fits, read_handshake-encode_handshake}
use realmrunner.Metrics.Ping.{write_packet, write_string, loopback, ping_handshake, ping_request}

abbrev pub ping_fields : ℕ → Handshake
ping_fields port = record {
  protocol_version = negsuc 0;
  server_address = loopback;
  server_port = port % 65536;
  next_state = pos 1;
}

ping_fields-Fits : (port : ℕ) → Fits (ping_fields port)
ping_fields-Fits port = omega arith

same_packet : (body : List ℕ) → write_packet body ≡ Packets.write_packet body
unfolding write_packet Packets.write_packet
same_packet body = refl

ping_handshake-encode : (port : ℕ) → ping_handshake port ≡ encode_handshake (ping_fields port)
unfolding ping_handshake encode_handshake write_string Packets.write_string
ping_handshake-encode port = refl

length-ping_handshake : (port : ℕ) → length (ping_handshake port) ≤ Packets.max_packet_size
unfolding ping_handshake write_string put_u16
length-ping_handshake port =
    rw (length-append, length-append, length-append, length-append)
      (omega (
        arith,
        write_var_int_shape (pos 0),
        write_var_int_shape (pos 1),
        write_var_int_shape (negsuc 0),
        write_var_int_shape (pos 9),
      ))

request_id : write_var_int (pos 0) ≡ 0 ∷ []
unfolding write_var_int
request_id = refl

-- The sleep proxy's readers take the poller's request apart into a status handshake for the port,
-- with protocol version -1, and a status request with nothing behind it.
pub proxy_reads_ping :
    (port : ℕ)
    → (Packets.read_packet (ping_request port)
        ≡ ok (ping_handshake port, write_packet (write_var_int (pos 0))))
      × (read_handshake (ping_handshake port) ≡ ok (ping_fields port))
      × (Packets.read_packet (write_packet (write_var_int (pos 0))) ≡ ok (0 ∷ [], []))
unfolding ping_request
proxy_reads_ping port = (
  rw (same_packet (ping_handshake port)) (
      read_packet-write_packet (ping_handshake port) (write_packet (write_var_int (pos 0)))
        (length-ping_handshake port)),
  rw (ping_handshake-encode port, ← append-nil (encode_handshake (ping_fields port)))
      (read_handshake-encode_handshake (ping_fields port) [] (ping_fields-Fits port)),
  rw (request_id, same_packet (0 ∷ []), ← append-nil (Packets.write_packet (0 ∷ [])))
      (read_packet-write_packet (0 ∷ []) [] (omega arith)),
)
