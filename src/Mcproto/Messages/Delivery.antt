-- ===== src/Mcproto/Messages/Delivery.antt =====
-- What a client reads of the packets that the proxy writes.
use realmrunner.Common.{ℕ, ◌≤◌, ◌≡◌, List, [], ◌++◌, length, arith}
use realmrunner.Common.{length-append, append-nil}
use realmrunner.Common.Int.{ℤ, pos, IsI32}
use realmrunner.Mcproto.Stream.{Result, ok, err, Reader, ◌>>=◌, pure}
use realmrunner.Mcproto.VarInt.{write_var_int, read_var_int}
use realmrunner.Mcproto.VarInt.RoundTrip.{var_int_round_trip}
use realmrunner.Mcproto.VarInt.Reading.{write_var_int_shape}
use realmrunner.Mcproto.Packet.{
  max_string_length, max_packet_size, read_string, write_string, read_packet, write_packet,
}
use realmrunner.Mcproto.Packet.RoundTrip.{read_string-write_string, read_packet-write_packet}
use realmrunner.Mcproto.Messages.{write_status_packet, chat_component, write_login_disconnect}

-- A client that reads one packet: its id and the text in it.
abbrev pub text_packet : Reader (ℤ × List ℕ)
text_packet = do id ← read_var_int; text ← read_string; pure (id, text)

abbrev with_rest {ℓ} : {A : Type ℓ} → Result (A × List ℕ) → List ℕ → Result (A × List ℕ)
with_rest (ok (a, _)) rest = ok (a, rest)
with_rest (err e) rest = err e

pub client_reads : Reader (ℤ × List ℕ)
client_reads s = elim (read_packet s) [
  | ok (body, rest) ↦ with_rest (text_packet body) rest
  | err e ↦ err e
]

text_body_fits :
    (id : ℤ) (text : List ℕ)
    → length text ≤ max_string_length
    → length (write_var_int id ++ write_string text) ≤ max_packet_size
unfolding write_string
text_body_fits id text h = omega (
  arith,
  length-append (write_var_int id) (write_var_int (pos (length text)) ++ text),
  length-append (write_var_int (pos (length text))) text,
  write_var_int_shape id,
  write_var_int_shape (pos (length text)),
)

text_packet-write :
    (id : ℤ) (text : List ℕ)
    → IsI32 id
    → length text ≤ max_string_length
    → text_packet (write_var_int id ++ write_string text) ≡ ok ((id, text), [])
text_packet-write id text f h = ground (
  arith,
  var_int_round_trip id (write_string text),
  read_string-write_string text [],
  append-nil (write_string text),
)

client_reads-write :
    (id : ℤ) (text rest : List ℕ)
    → IsI32 id
    → length text ≤ max_string_length
    → client_reads (write_packet (write_var_int id ++ write_string text) ++ rest)
      ≡ ok ((id, text), rest)
unfolding client_reads
client_reads-write id text rest f h = ground (
  arith,
  read_packet-write_packet (write_var_int id ++ write_string text) rest (text_body_fits id text h),
  text_packet-write id text f h,
)

-- A client reads the status JSON, of at most 32767 bytes, under packet id 0.
pub client_reads-write_status_packet :
    (json rest : List ℕ)
    → length json ≤ max_string_length
    → client_reads (write_status_packet json ++ rest) ≡ ok ((pos 0, json), rest)
unfolding write_status_packet
client_reads-write_status_packet json rest h = client_reads-write (pos 0) json rest (omega arith) h

-- A client reads the chat component of a login disconnect under packet id 0.
pub client_reads-write_login_disconnect :
    (message rest : List ℕ)
    → length (chat_component message) ≤ max_string_length
    → client_reads (write_login_disconnect message ++ rest)
      ≡ ok ((pos 0, chat_component message), rest)
unfolding write_login_disconnect
client_reads-write_login_disconnect message rest h =
    client_reads-write (pos 0) (chat_component message) rest (omega arith) h
