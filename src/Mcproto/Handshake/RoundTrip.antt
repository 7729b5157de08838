-- ===== src/Mcproto/Handshake/RoundTrip.antt =====
-- A handshake reads back as it was encoded, and the proxy's replay of it does too.
use realmrunner.Common.{
  ℕ, ◌≤◌, ◌<◌, ◌≡◌, ◌≢◌, ◌/◌, ◌%◌, List, [], ◌∷◌, ◌++◌, length, arith, append_assoc,
}
use realmrunner.Common.Int.{ℤ, pos, negsuc, IsI32}
use realmrunner.Mcproto.Stream.{ok, err, unexpected_packet, read_full-append}
use realmrunner.Mcproto.VarInt.{write_var_int}
use realmrunner.Mcproto.VarInt.RoundTrip.{var_int_round_trip}
use realmrunner.Mcproto.Packet.{max_string_length, write_string}
use realmrunner.Mcproto.Packet.RoundTrip.{read_string-write_string}
use realmrunner.Mcproto.Handshake.{
  Handshake, put_u16, read_u16, handshake_fields, read_handshake, encode_handshake,
}

-- The handshakes that fit the wire format.
pub record Fits (h : Handshake) : Type 0 where
  pub version_fits : IsI32 h.protocol_version
  pub address_fits : length h.server_address ≤ max_string_length
  pub port_fits : h.server_port < 65536
  pub state_fits : IsI32 h.next_state

pub read_u16-put_u16 :
    (p : ℕ) (rest : List ℕ) → p < 65536 → read_u16 (put_u16 p ++ rest) ≡ ok (p, rest)
unfolding read_u16 put_u16
read_u16-put_u16 p rest h = ground (arith, read_full-append ((p / 256 % 256) ∷ (p % 256) ∷ []) rest)

-- ReadHandshake returns the handshake that EncodeHandshake wrote, whatever follows it in the body.
pub read_handshake-encode_handshake :
    (h : Handshake) (junk : List ℕ) → Fits h → read_handshake (encode_handshake h ++ junk) ≡ ok h
unfolding read_handshake encode_handshake handshake_fields
read_handshake-encode_handshake h junk f = simp append_assoc (
    ground (
      arith,
      var_int_round_trip (pos 0) (
          write_var_int h.protocol_version
          ++ (write_string h.server_address
              ++ (put_u16 h.server_port ++ (write_var_int h.next_state ++ junk)))),
      var_int_round_trip h.protocol_version (
          write_string h.server_address
          ++ (put_u16 h.server_port ++ (write_var_int h.next_state ++ junk))),
      read_string-write_string h.server_address
          (put_u16 h.server_port ++ (write_var_int h.next_state ++ junk)),
      read_u16-put_u16 h.server_port (write_var_int h.next_state ++ junk),
      var_int_round_trip h.next_state junk,
    ))

-- A body that starts with another packet id is refused with that id.
pub read_handshake_other_id :
    (id : ℤ) (body : List ℕ)
    → IsI32 id
    → id ≢ pos 0
    → read_handshake (write_var_int id ++ body) ≡ err (unexpected_packet id)
unfolding read_handshake
read_handshake_other_id (pos n) body f ne = ground (arith, var_int_round_trip (pos n) body)
read_handshake_other_id (negsuc n) body f ne = ground (arith, var_int_round_trip (negsuc n) body)
