-- ===== src/SleepProxy/Polling.antt =====
-- The status poller of backend/metrics/ping.go at a server that sleeps behind the proxy.
use realmrunner.Common.{◌≤◌, ◌≡◌, ◌∙◌, refl, ap, ℕ, false, Option, some, append-nil, arith}
use realmrunner.Common.{List, [], ◌∷◌, ◌++◌, length}
use realmrunner.Common.Int.{pos, negsuc}
use realmrunner.Mcproto.Stream.{ok, eof}
use realmrunner.Mcproto.VarInt.{write_var_int}
use realmrunner.Mcproto.Packet as Packets
use realmrunner.Mcproto.Messages.{write_status_packet}
use realmrunner.Mcproto.Messages.Delivery.{client_reads, client_reads-write_status_packet}
use realmrunner.Metrics.Ping.{write_packet, ping_handshake, ping_request}
use realmrunner.Metrics.Ping.Request.{ping_fields, proxy_reads_ping}
use realmrunner.SleepProxy.{
  Hooks, StatusResponse, Description, Network, status_response, shown_motd, status_loop,
  serve_status, route, handle,
}
use realmrunner.SleepProxy.Status.{
  status_request, frames, answers, status_loop-frames, read_packet-nil,
}
use realmrunner.SleepProxy.Forwarding.{handle-route}

request_frames : write_packet (write_var_int (pos 0)) ≡ frames (status_request [] ∷ []) ++ []
unfolding write_packet frames write_var_int Packets.write_packet
request_frames = refl

-- The status of a request from the poller, whose protocol version is -1.
abbrev pub polled_status : Description → StatusResponse
polled_status d = status_response d.version_name (negsuc 0) d.max_players (shown_motd d)

poll_loop :
    (encoded : List ℕ)
    → status_loop
        (length (write_packet (write_var_int (pos 0))))
        encoded
        (write_packet (write_var_int (pos 0)))
      ≡ write_status_packet encoded
poll_loop encoded =
    ap (λ s. status_loop (length s) encoded s) request_frames
    ∙ (status_loop-frames encoded (status_request [] ∷ []) [] eof (omega arith, tt) read_packet-nil
        ∙ unfold answers in append-nil (write_status_packet encoded))

module _ {ℓ} {S : Type ℓ} (hooks : Hooks S) (marshal : StatusResponse → Option (List ℕ)) where
  -- The poller's request to a server that sleeps is answered with the marshalled description under
  -- packet id 0, if that fits a string of the protocol, with nothing behind it; the server is neither
  -- dialled nor woken.
  pub handle-ping_request :
      (n : Network) (port : ℕ) (encoded : List ℕ) (state : S)
      → hooks.awake state ≡ false
      → marshal (polled_status (hooks.describe state)) ≡ some encoded
      → length encoded ≤ Packets.max_string_length
      → (client_reads (handle hooks marshal n (ping_request port) state).0.to_client
          ≡ ok ((pos 0, encoded), []))
        × ((handle hooks marshal n (ping_request port) state).0.to_server ≡ Option.none)
        × ((handle hooks marshal n (ping_request port) state).1 ≡ state)
  unfolding route serve_status
  handle-ping_request n port encoded state asleep shown fits =
      let (first, second, _) = proxy_reads_ping port in
      rw
        (handle-route hooks marshal n (ping_request port) (ping_handshake port)
          (write_packet (write_var_int (pos 0))) (ping_fields port) state first second)
        (rw (route, asleep)
          (rw (serve_status, shown)
            (
              rw (poll_loop encoded) (
                  rw (← append-nil (write_status_packet encoded))
                    (client_reads-write_status_packet encoded [] fits)),
              refl,
              refl,
            )))
