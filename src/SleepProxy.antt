-- ===== src/SleepProxy.antt =====
-- backend/sleepproxy/proxy.go: one connection of the proxy that holds the port of a sleeping server,
-- and the listener with its connections. A client is the bytes that it sends before it goes or a
-- deadline passes; the proxy's writes are the bytes that it sends each side.
pub mod Listener
pub mod Status
pub mod Forwarding
pub mod Joining
pub mod Polling
pub mod Tests
use realmrunner.Common.{ℕ, zero, suc, ◌==◌, Bool, true, false, Option, none, some}
use realmrunner.Common.{List, [], ◌∷◌, ◌++◌, length, take, if◌then◌else◌}
use realmrunner.Common.Text.{codes}
use realmrunner.Common.Int.{ℤ, pos, eq_ℤ}
use realmrunner.Mcproto.Stream.{ReadError, Result, ok, err}
use realmrunner.Mcproto.Packet.{read_packet, write_packet}
use realmrunner.Mcproto.Handshake.{Handshake, read_handshake, state_status, state_login}
use realmrunner.Mcproto.Messages.{write_status_packet, write_pong_packet, write_login_disconnect}

-- Text is its code points.
pub record Description : Type 0 where
  pub version_name : List ℕ
  pub max_players : ℤ
  pub motd : List ℕ
  pub starting_motd : List ℕ
  pub is_starting : Bool

-- What the proxy needs from an application with the state S. `wake` returns the text of its error.
pub record Hooks {ℓ} (S : Type ℓ) : Type ℓ where
  pub wake : S → Option (List ℕ) × S
  pub awake : S → Bool
  pub describe : S → Description

-- StatusResponse of mcproto; the list of sampled players is always empty.
pub record StatusResponse : Type 0 where
  pub name : List ℕ
  pub protocol : ℤ
  pub max : ℤ
  pub online : ℤ
  pub text : List ℕ

-- NewStatusResponse
abbrev pub status_response : List ℕ → ℤ → ℤ → List ℕ → StatusResponse
status_response version_name protocol max_players motd = record {
  name = version_name;
  protocol = protocol;
  max = max_players;
  online = pos 0;
  text = motd;
}

-- One round of the loop of serveWake: what `isClosed` and `dialServer` find in it.
pub record Round : Type 0 where
  pub closing : Bool
  pub reachable : Bool

-- What lies outside the proxy while a connection lasts: whether the server answers a dial at once,
-- the rounds before the deadline, and, of a joined connection, how many bytes of the client are
-- copied and which bytes the server sends, until one of the copies ends.
pub record Network : Type 0 where
  pub answers : Bool
  pub rounds : List Round
  pub forwarded : ℕ
  pub reply : List ℕ

pub data Fault : Type 0 where
  handshake_unread handshake_refused : ReadError → Fault
  status_unmarshalled : Fault

-- What a connection has sent the client, the bytes sent to a server that was dialled, and the error
-- that `handle` returns.
pub record Session : Type 0 where
  pub to_client : List ℕ
  pub to_server : Option (List ℕ)
  pub fault : Option Fault

abbrev pub silent : Session
silent = record { to_client = []; to_server = none; fault = none }

abbrev pub failing : Fault → Session
failing f = record { to_client = []; to_server = none; fault = some f }

abbrev pub telling : List ℕ → Session
telling bytes = record { to_client = bytes; to_server = none; fault = none }

-- What one packet of a status conversation does; `next` is what the later ones make it send.
abbrev pub answer_packet : List ℕ → List ℕ → List ℕ → List ℕ
answer_packet encoded [] next = next
answer_packet encoded (id ∷ payload) next =
    if id == 0
    then write_status_packet encoded ++ next
    else if id == 1
    then write_pong_packet payload
    else []

-- The loop of serveStatus. Each round takes bytes, so a round for each byte is enough.
unfoldable pub status_loop : ℕ → List ℕ → List ℕ → List ℕ
unfolding read_packet
status_loop zero encoded s = []
status_loop (suc fuel) encoded s = elim (read_packet s) [
  | ok (body, rest) ↦ answer_packet encoded body (status_loop fuel encoded rest)
  | err e ↦ []
]

-- The message of the day that serveStatus shows.
abbrev pub shown_motd : Description → List ℕ
shown_motd d = if d.is_starting then d.starting_motd else d.motd

abbrev pub serve_encoded : Option (List ℕ) → List ℕ → Session
serve_encoded none s = failing status_unmarshalled
serve_encoded (some encoded) s = telling (status_loop (length s) encoded s)

-- serveStatus. `marshal` is json.Marshal.
unfoldable pub serve_status :
    (StatusResponse → Option (List ℕ)) → Description → Handshake → List ℕ → Session
unfolding status_loop
serve_status marshal d h s =
    serve_encoded
      (marshal (status_response d.version_name h.protocol_version d.max_players (shown_motd d))) s

-- pipe, to a server that was dialled: it replays the packet that the proxy has consumed.
unfoldable pub pipe : Network → List ℕ → List ℕ → Session
unfolding write_packet
pipe n body s = record {
  to_client = n.reply;
  to_server = some (write_packet body ++ take n.forwarded s);
  fault = none;
}

abbrev pub not_reachable_text : List ℕ
not_reachable_text = codes "This realm is not reachable right now."

-- pipeToServer
unfoldable pub pipe_to_server : Network → List ℕ → List ℕ → Session
unfolding pipe write_login_disconnect
pipe_to_server n body s =
    if n.answers then pipe n body s else telling (write_login_disconnect not_reachable_text)

abbrev pub still_starting_text : List ℕ
still_starting_text =
    codes "This realm is still starting up." ++ 10 ∷ codes "Please reconnect in a moment."

-- The loop of serveWake over the rounds before its deadline.
unfoldable pub wake_loop : Network → List Round → List ℕ → List ℕ → Session
unfolding pipe write_login_disconnect
wake_loop n [] body s = telling (write_login_disconnect still_starting_text)
wake_loop n (r ∷ rs) body s =
    let later = wake_loop n rs body s in
    if r.closing then silent else if r.reachable then pipe n body s else later

abbrev pub could_not_start_text : List ℕ → List ℕ
could_not_start_text message = codes "This realm could not be started:" ++ 10 ∷ message

abbrev pub after_wake {ℓ} :
    {S : Type ℓ} → Network → List ℕ → List ℕ → Option (List ℕ) × S → Session × S
after_wake n body s (some message, t) =
    (telling (write_login_disconnect (could_not_start_text message)), t)
after_wake n body s (none, t) = (wake_loop n n.rounds body s, t)

-- serveWake
unfoldable pub serve_wake {ℓ} : {S : Type ℓ} → Hooks S → Network → List ℕ → List ℕ → S → Session × S
unfolding wake_loop write_login_disconnect
serve_wake hooks n body s state = after_wake n body s (hooks.wake state)

-- The connection behind a handshake that was read.
unfoldable pub route {ℓ} :
    {S : Type ℓ}
    → Hooks S
    → (StatusResponse → Option (List ℕ))
    → Network
    → Handshake
    → List ℕ
    → List ℕ
    → S
    → Session × S
unfolding pipe_to_server serve_status serve_wake
route hooks marshal n h body s state =
    if hooks.awake state
    then (pipe_to_server n body s, state)
    else if eq_ℤ h.next_state state_status
    then (serve_status marshal (hooks.describe state) h s, state)
    else if eq_ℤ h.next_state state_login
    then serve_wake hooks n body s state
    else (silent, state)

-- handle
unfoldable pub handle {ℓ} :
    {S : Type ℓ} → Hooks S → (StatusResponse → Option (List ℕ)) → Network → List ℕ → S → Session × S
unfolding route read_packet read_handshake
handle hooks marshal n s state = elim (read_packet s) [
  | ok (body, rest) ↦ elim (read_handshake body) [
    | ok h ↦ route hooks marshal n h body rest state
    | err e ↦ (failing (handshake_refused e), state)
  ]
  | err e ↦ (failing (handshake_unread e), state)
]
