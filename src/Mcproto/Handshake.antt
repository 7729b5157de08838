-- ===== src/Mcproto/Handshake.antt =====
-- The handshake packet of backend/mcproto/protocol.go.
pub mod RoundTrip
use realmrunner.Common.{ℕ, ◌+◌, ◌*◌, ◌/◌, ◌%◌, List, [], ◌∷◌, ◌++◌, not, if◌then◌else◌}
use realmrunner.Common.Int.{ℤ, pos, eq_ℤ}
use realmrunner.Mcproto.Stream.{
  Result, ok, err, Reader, ◌>>=◌, pure, fail, unexpected_packet, read_full,
}
use realmrunner.Mcproto.VarInt.{write_var_int, read_var_int}
use realmrunner.Mcproto.Packet.{write_string, read_string}

abbrev pub state_status : ℤ
state_status = pos 1

abbrev pub state_login : ℤ
state_login = pos 2

pub record Handshake : Type 0 where
  pub protocol_version : ℤ
  pub server_address : List ℕ
  pub server_port : ℕ
  pub next_state : ℤ

-- The two bytes of a big-endian `uint16`, and back.
unfoldable pub put_u16 : ℕ → List ℕ
put_u16 p = (p / 256 % 256) ∷ (p % 256) ∷ []

abbrev pub get_u16 : List ℕ → ℕ
get_u16 (hi ∷ lo ∷ _) = hi * 256 + lo
get_u16 _ = 0

unfoldable pub read_u16 : Reader ℕ
read_u16 = do bs ← read_full 2; pure (get_u16 bs)

unfoldable pub handshake_fields : Reader Handshake
unfolding read_u16
handshake_fields = do
  version ← read_var_int
  address ← read_string
  port ← read_u16
  next ← read_var_int
  pure (record {
    protocol_version = version;
    server_address = address;
    server_port = port;
    next_state = next;
  })

unfoldable pub handshake_reader : Reader Handshake
handshake_reader = do
  packet_id ← read_var_int
  if not (eq_ℤ packet_id (pos 0)) then fail (unexpected_packet packet_id) else handshake_fields

-- What is left of the body is not looked at.
abbrev first {ℓ} : {A : Type ℓ} → Result (A × List ℕ) → Result A
first (ok (a, rest)) = ok a
first (err e) = err e

unfoldable pub read_handshake : List ℕ → Result Handshake
unfolding handshake_reader
read_handshake body = first (handshake_reader body)

unfoldable pub encode_handshake : Handshake → List ℕ
unfolding put_u16
encode_handshake h =
    write_var_int (pos 0)
    ++ (write_var_int h.protocol_version
        ++ (write_string h.server_address ++ (put_u16 h.server_port ++ write_var_int h.next_state)))
