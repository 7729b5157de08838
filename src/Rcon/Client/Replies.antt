-- ===== src/Rcon/Client/Replies.antt =====
-- What the loops of backend/rcon/client.go make of a server that sends whole packets.
use realmrunner.Common.{ℕ, zero, suc, ◌<◌, ◌≡◌, refl, true, List, [], ◌∷◌, ◌++◌, All, arith}
use realmrunner.Common.{length, if◌then◌else◌}
use realmrunner.Common.Int.{ℤ, negsuc, eq_ℤ}
use realmrunner.Mcproto.Stream.{eof, read_full}
use realmrunner.Rcon.Packet.{
  Packet, type_response, type_auth_response, trim_right, write_packet, read_packet,
}
use realmrunner.Rcon.Packet.RoundTrip.{Fits, read_packet_round_trip, read_packet_extent}
use realmrunner.Rcon.Client.{
  Outcome, done, failed, stuck, Client, auth_failed, read_failed, unexpected_type, id_mismatch,
  auth_loop, authenticate, trailers, execute,
}

abbrev pub encode : List Packet → List ℕ
encode [] = []
encode (p ∷ ps) = write_packet p ++ encode ps

-- The protocol at the level of packets: empty responses are skipped, and the first other packet
-- decides.
unfoldable pub expected_auth : ℤ → List Packet → Outcome (List Packet)
expected_auth id [] = failed (read_failed eof)
expected_auth id (p ∷ ps) =
    if eq_ℤ p.packet_type type_response
    then expected_auth id ps
    else if eq_ℤ p.packet_type type_auth_response
    then (if eq_ℤ p.id id
        then (if eq_ℤ p.id (negsuc 0) then failed auth_failed else done ps)
        else failed auth_failed)
    else failed (unexpected_type p.packet_type)

abbrev pub on_bytes : Outcome (List Packet) → Outcome (List ℕ)
on_bytes (done ps) = done (encode ps)
on_bytes (failed e) = failed e
on_bytes stuck = stuck

auth_loop-encode :
    (ps : List Packet) (fuel : ℕ) (id : ℤ)
    → All Fits ps
    → length (encode ps) < fuel
    → auth_loop fuel id (encode ps) ≡ on_bytes (expected_auth id ps)
unfolding auth_loop expected_auth
auth_loop-encode ps zero id f h = elim h [ ]
auth_loop-encode [] (suc fuel) id f h = unfold read_packet read_full in refl
auth_loop-encode (p ∷ ps) (suc fuel) id (f, fs) h =
    let e = read_packet_round_trip p (encode ps) f in
    ground (
      arith,
      e,
      read_packet_extent (encode (p ∷ ps)) (record p { body = trim_right p.body }) (encode ps) e,
      auth_loop-encode ps fuel id fs,
    )

-- Against a server that sends these packets, authenticating decides as the protocol says, and
-- leaves the packets behind the deciding one.
pub authenticate-encode :
    (c : Client) (password : List ℕ) (ps : List Packet)
    → All Fits ps
    → (authenticate c password (encode ps)).0 ≡ on_bytes (expected_auth c.next_id ps)
unfolding authenticate
authenticate-encode c password ps f =
    auth_loop-encode ps (suc (length (encode ps))) c.next_id f (omega arith)

abbrev pub bodies : List Packet → List ℕ
bodies [] = []
bodies (p ∷ ps) = trim_right p.body ++ bodies ps

trailers-encode :
    (ps : List Packet) (fuel : ℕ)
    → All Fits ps
    → length (encode ps) < fuel
    → trailers fuel (encode ps) ≡ done (bodies ps)
unfolding trailers
trailers-encode ps zero f h = elim h [ ]
trailers-encode [] (suc fuel) f h = unfold read_packet read_full in refl
trailers-encode (p ∷ ps) (suc fuel) (f, fs) h =
    let e = read_packet_round_trip p (encode ps) f in
    ground (
      arith,
      e,
      read_packet_extent (encode (p ∷ ps)) (record p { body = trim_right p.body }) (encode ps) e,
      trailers-encode ps fuel fs,
    )

-- On an open connection whose first reply carries the id of the request, Execute returns the text
-- of all the packets that the server sends, in order; another id is refused.
pub execute-encode :
    (c : Client) (command : List ℕ) (p : Packet) (ps : List Packet)
    → c.connected ≡ true
    → All Fits (p ∷ ps)
    → (execute c command (encode (p ∷ ps))).0 ≡ (
        if eq_ℤ p.id c.next_id then done (bodies (p ∷ ps)) else failed (id_mismatch p.id c.next_id))
unfolding execute
execute-encode c command p ps open_ (f, fs) = ground (
  arith,
  read_packet_round_trip p (encode ps) f,
  trailers-encode ps (suc (length (encode ps))) fs,
)
