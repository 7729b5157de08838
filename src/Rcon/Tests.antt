-- ===== src/Rcon/Tests.antt =====
-- The theorems on backend/rcon at concrete packets.
use realmrunner.Common.{ℕ, ◌≡◌, ◌≢◌, refl, List, [], ◌∷◌, arith}
use realmrunner.Common.Int.{pos}
use realmrunner.Rcon.Packet.{
  Packet, read_packet, write_packet, type_response, type_auth_response, max_packet_size,
}
use realmrunner.Rcon.Packet.RoundTrip.{Fits}
use realmrunner.Rcon.Client.{done, stuck, fresh, authenticate, execute, execute_once}
use realmrunner.Rcon.Client.Termination.{execute_once-ne-stuck}
use realmrunner.Rcon.Client.Replies.{encode, expected_auth, authenticate-encode, execute-encode}

-- "ok" and, behind it, a zero byte of the text.
abbrev reply : Packet
reply = record { id = pos 1; packet_type = type_response; body = 111 ∷ 107 ∷ 0 ∷ [] }

reply-Fits : Fits reply
reply-Fits = record { id_fits = omega arith; type_fits = omega arith; body_fits = omega arith }

abbrev accepted : Packet
accepted = record { id = pos 1; packet_type = type_auth_response; body = [] }

accepted-Fits : Fits accepted
accepted-Fits = record { id_fits = omega arith; type_fits = omega arith; body_fits = omega arith }

abbrev sent : List ℕ
sent = 10 ∷ 0 ∷ 0 ∷ 0 ∷ 1 ∷ 0 ∷ 0 ∷ 0 ∷ 2 ∷ 0 ∷ 0 ∷ 0 ∷ 0 ∷ 0 ∷ []

execute_once-ne-stuck_example : (execute_once (1 ∷ []) (2 ∷ []) sent).0 ≢ stuck
execute_once-ne-stuck_example = execute_once-ne-stuck (1 ∷ []) (2 ∷ []) sent

authenticate-encode_example :
    (authenticate fresh (112 ∷ []) (encode (reply ∷ accepted ∷ reply ∷ []))).0
    ≡ done (encode (reply ∷ []))
unfolding expected_auth
authenticate-encode_example =
    authenticate-encode fresh (112 ∷ []) (reply ∷ accepted ∷ reply ∷ [])
      (reply-Fits, (accepted-Fits, (reply-Fits, tt)))

execute-encode_example :
    (execute fresh (108 ∷ []) (encode (reply ∷ reply ∷ []))).0 ≡ done (111 ∷ 107 ∷ 111 ∷ 107 ∷ [])
unfolding realmrunner.Rcon.Packet.trim_right
execute-encode_example =
    execute-encode fresh (108 ∷ []) reply (reply ∷ []) refl (reply-Fits, (reply-Fits, tt))
