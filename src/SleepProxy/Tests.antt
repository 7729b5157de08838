-- ===== src/SleepProxy/Tests.antt =====
-- The theorems on backend/sleepproxy/proxy.go at concrete connections, with a server that counts the
-- times that it is woken.
use realmrunner.Common.{ℕ, suc, ◌==◌, ◌≡◌, ◌≢◌, refl, not, Option, none, some, true, false, arith}
use realmrunner.Common.{List, [], ◌∷◌, ◌++◌, take, length}
use realmrunner.Common.Int.{pos}
use realmrunner.Common.Text.{codes}
use realmrunner.Mcproto.Stream.{ok, eof}
use realmrunner.Mcproto.VarInt.{write_var_int}
use realmrunner.Mcproto.Packet.{write_packet, read_packet}
use realmrunner.Mcproto.Packet.RoundTrip.{read_packet-write_packet}
use realmrunner.Mcproto.Handshake.{Handshake, encode_handshake, read_handshake, state_login}
use realmrunner.Mcproto.Messages.Delivery.{client_reads}
use realmrunner.Metrics.Ping.{ping_request}
use realmrunner.SleepProxy.{Hooks, StatusResponse, Network, handle, status_loop, serve_wake, route}
use realmrunner.SleepProxy.Listener.{
  Listener, listener_started, begin_close, accepted, accept, close, close_returns, Reach, here,
  further, IsSettled, Reach-IsSettled,
}
use realmrunner.SleepProxy.Status.{
  Request, status_request, echo_request, blank, frames, answers, status_loop-frames,
  read_packet-nil,
}
use realmrunner.SleepProxy.Forwarding.{Forwards, handle_awake-Forwards, handle_state}
use realmrunner.SleepProxy.Polling.{handle-ping_request}

abbrev requests : List Request
requests = status_request [] ∷ blank ∷ echo_request (7 ∷ []) ∷ status_request [] ∷ []

status_loop-frames_example :
    status_loop (length (frames requests ++ [])) (codes "{}") (frames requests ++ [])
    ≡ answers (codes "{}") requests
status_loop-frames_example =
    status_loop-frames (codes "{}") requests [] eof
      (omega arith, (omega arith, (omega arith, (omega arith, tt)))) read_packet-nil

-- Awake once it was woken at all.
abbrev counting : Hooks ℕ
counting = record {
  wake = λ k. (none, suc k);
  awake = λ k. not (k == 0);
  describe = λ k. record {
    version_name = codes "1.20.4";
    max_players = pos 20;
    motd = codes "sleeping";
    starting_motd = codes "starting";
    is_starting = false;
  };
}

abbrev pub marshal : StatusResponse → Option (List ℕ)
marshal r = some (codes "{}")

abbrev pub login_body : List ℕ
login_body = 0 ∷ 5 ∷ 2 ∷ 104 ∷ 105 ∷ 99 ∷ 221 ∷ 2 ∷ []

abbrev pub login_handshake : Handshake
login_handshake = record {
  protocol_version = pos 5;
  server_address = 104 ∷ 105 ∷ [];
  server_port = 25565;
  next_state = pos 2;
}

abbrev pub login_bytes : List ℕ
login_bytes = write_packet login_body ++ 1 ∷ 9 ∷ []

pub reads_login : read_packet login_bytes ≡ ok (login_body, 1 ∷ 9 ∷ [])
reads_login = read_packet-write_packet login_body (1 ∷ 9 ∷ []) (omega arith)

pub reads_handshake : read_handshake login_body ≡ ok login_handshake
unfolding read_handshake realmrunner.Mcproto.Handshake.handshake_reader
    realmrunner.Mcproto.Handshake.handshake_fields realmrunner.Mcproto.Handshake.read_u16
    realmrunner.Mcproto.VarInt.read_var_int realmrunner.Mcproto.VarInt.read_groups
    realmrunner.Mcproto.Packet.read_string realmrunner.Mcproto.Packet.read_block
    realmrunner.Mcproto.Stream.read_full realmrunner.Common.Int.of_u32
reads_handshake = refl

abbrev pub reachable_network : Network
reachable_network = record {
  answers = true;
  rounds =
      record { closing = false; reachable = false }
      ∷ record { closing = false; reachable = true }
      ∷ [];
  forwarded = 2;
  reply = 8 ∷ [];
}

handle_awake-Forwards_example :
    Forwards reachable_network login_body
      (1 ∷ 9 ∷ [])
      (handle counting marshal reachable_network login_bytes 1).0
    × ((handle counting marshal reachable_network login_bytes 1).1 ≡ 1)
handle_awake-Forwards_example =
    handle_awake-Forwards counting marshal reachable_network login_bytes login_body (1 ∷ 9 ∷ [])
      login_handshake 1 reads_login reads_handshake refl refl

wakes : (handle counting marshal reachable_network login_bytes 0).1 ≡ 1
unfolding handle route serve_wake
wakes = rw (handle, reads_login) (rw reads_handshake refl)

handle_state_example :
    (body : List ℕ) × (rest : List ℕ) × (h : Handshake) × (read_packet login_bytes
      ≡ ok (body, rest))
    × (read_handshake body ≡ ok h)
    × (h.next_state ≡ state_login)
    × (counting.awake 0 ≡ false)
    × ((handle counting marshal reachable_network login_bytes 0).1 ≡ (counting.wake 0).1)
handle_state_example =
    handle_state counting marshal reachable_network login_bytes 0
      (λ same. ground (arith, wakes, same))

handle-ping_request_example :
    (client_reads (handle counting marshal reachable_network (ping_request 25565) 0).0.to_client
      ≡ ok ((pos 0, codes "{}"), []))
    × ((handle counting marshal reachable_network (ping_request 25565) 0).0.to_server ≡ none)
    × ((handle counting marshal reachable_network (ping_request 25565) 0).1 ≡ 0)
handle-ping_request_example =
    handle-ping_request counting marshal reachable_network 25565 (codes "{}") 0 refl refl
      (omega arith)

abbrev one_served : Listener
one_served = record listener_started {
  closed = true;
  listening = false;
  loop = accepted;
  returned = true;
}

-- Close waits while a connection is accepted that nothing has counted yet.
reaches_one : Reach one_served
unfolding begin_close
reaches_one =
    further
      (further (further here (accept listener_started refl refl))
        (close (record listener_started { loop = accepted })))
      (close_returns (record listener_started { closed = true; listening = false; loop = accepted })
        refl refl)

Reach-IsSettled_example : IsSettled one_served
Reach-IsSettled_example = Reach-IsSettled one_served reaches_one
