-- ===== src/Rcon/Client.antt =====
-- Dial, authenticate and the two Execute functions of backend/rcon/client.go. What the server sends
-- is a list of bytes; behind them a read fails, by a deadline or a closed connection.
pub mod Replies
pub mod Termination
use realmrunner.Common.{ℕ, zero, suc, ◌+◌, ◌%◌, ◌||◌, Bool, true, false, List, [], ◌∷◌, ◌++◌, not}
use realmrunner.Common.{length, if◌then◌else◌}
use realmrunner.Common.Int.{ℤ, pos, negsuc, eq_ℤ, to_u32, of_u32, u32_mod}
use realmrunner.Mcproto.Stream.{ReadError, Result, ok, err}
use realmrunner.Rcon.Packet.{
  Packet, type_response, type_command, type_auth, type_auth_response, write_packet, read_packet,
}

pub data RconError : Type 0 where
  connection_closed auth_failed : RconError
  read_failed : ReadError → RconError
  unexpected_type : ℤ → RconError
  id_mismatch : ℤ → ℤ → RconError

-- `stuck` is no Go value: a loop ran out of fuel.
pub data Outcome {ℓ} (A : Type ℓ) : Type ℓ where
  done : A → Outcome A
  failed : RconError → Outcome A
  stuck : Outcome A

pub record Client : Type 0 where
  pub connected : Bool
  pub next_id : ℤ
  pub sent : List ℕ

-- `c.nextID++` on an `int32`
unfoldable pub increment : ℤ → ℤ
increment z = of_u32 ((to_u32 z + 1) % u32_mod)

-- Takes the next id and writes a packet under it.
unfoldable pub send : Client → ℤ → List ℕ → Client
unfolding increment
send c packet_type body = record c {
  next_id = increment c.next_id;
  sent = c.sent ++ write_packet (record { id = c.next_id; packet_type = packet_type; body = body });
}

-- What the loop of `authenticate` does with a packet that is not an empty response.
abbrev judge : ℤ → Packet → List ℕ → Outcome (List ℕ)
judge id p rest =
    if not (eq_ℤ p.packet_type type_auth_response)
    then failed (unexpected_type p.packet_type)
    else if eq_ℤ p.id (negsuc 0) || not (eq_ℤ p.id id)
    then failed auth_failed
    else done rest

-- The loop of `authenticate`; it returns the bytes that are still to come.
unfoldable pub auth_loop : ℕ → ℤ → List ℕ → Outcome (List ℕ)
auth_loop zero id s = stuck
auth_loop (suc fuel) id s = elim (read_packet s) [
  | ok (p, rest) ↦
      if eq_ℤ p.packet_type type_response then auth_loop fuel id rest else judge id p rest
  | err e ↦ failed (read_failed e)
]

-- Each round takes bytes, so one round more than there are bytes is enough.
unfoldable pub authenticate : Client → List ℕ → List ℕ → Outcome (List ℕ) × Client
unfolding auth_loop send
authenticate c password incoming =
    (auth_loop (suc (length incoming)) c.next_id incoming, send c type_auth password)

abbrev pub after_body : List ℕ → Outcome (List ℕ) → Outcome (List ℕ)
after_body body (done more) = done (body ++ more)
after_body body (failed e) = failed e
after_body body stuck = stuck

-- The second loop of Client.Execute: the bodies of all packets up to the first failed read.
unfoldable pub trailers : ℕ → List ℕ → Outcome (List ℕ)
trailers zero s = stuck
trailers (suc fuel) s = elim (read_packet s) [
  | ok (p, rest) ↦ after_body p.body (trailers fuel rest)
  | err e ↦ done []
]

unfoldable pub response : ℤ → List ℕ → Outcome (List ℕ)
unfolding trailers
response id incoming = elim (read_packet incoming) [
  | ok (p, rest) ↦
      if not (eq_ℤ p.id id)
      then failed (id_mismatch p.id id)
      else after_body p.body (trailers (suc (length rest)) rest)
  | err e ↦ failed (read_failed e)
]

-- Client.Execute
unfoldable pub execute : Client → List ℕ → List ℕ → Outcome (List ℕ) × Client
unfolding response send
execute c command incoming =
    if not c.connected
    then (failed connection_closed, c)
    else (response c.next_id incoming, send c type_command command)

-- The client that Dial makes over a connection.
abbrev pub fresh : Client
fresh = record { connected = true; next_id = pos 1; sent = [] }

abbrev pub run_then : List ℕ → Outcome (List ℕ) × Client → Outcome (List ℕ) × Client
run_then command (done rest, c) =
    let (r, c') = execute c command rest in (r, record c' { connected = false })
run_then command (failed e, c) = (failed e, record c { connected = false })
run_then command (stuck, c) = (stuck, c)

-- Execute of the package: connect, authenticate, run one command, close.
unfoldable pub execute_once : List ℕ → List ℕ → List ℕ → Outcome (List ℕ) × Client
unfolding authenticate execute
execute_once password command incoming = run_then command (authenticate fresh password incoming)
