-- ===== src/SleepProxy/Joining.antt =====
-- How the wait of serveWake in backend/sleepproxy/proxy.go ends for a player who joins.
use realmrunner.Common.{ℕ, ◌≤◌, ◌≡◌, ◌∙◌, ap, refl, true, false, Option, none, some}
use realmrunner.Common.{List, [], ◌∷◌, ◌++◌, append-nil, length, arith, All}
use realmrunner.Common.Int.{pos}
use realmrunner.Mcproto.Stream.{ok}
use realmrunner.Mcproto.Packet.{max_string_length, read_packet}
use realmrunner.Mcproto.Packet.RoundTrip.{read_packet_bounds}
use realmrunner.Mcproto.Handshake.{Handshake, read_handshake, state_login}
use realmrunner.Mcproto.Messages.{quote_json, chat_component, write_login_disconnect}
use realmrunner.Mcproto.Messages.Delivery.{client_reads, client_reads-write_login_disconnect}
use realmrunner.SleepProxy.{
  Hooks, StatusResponse, Round, Network, Session, pipe, telling, wake_loop, still_starting_text,
  could_not_start_text, after_wake, serve_wake, route, handle,
}
use realmrunner.SleepProxy.Forwarding.{Forwards, pipe-Forwards, handle-route}

-- A round that neither finds the proxy closing nor reaches the server.
abbrev pub IsWaiting : Round → Type 0
IsWaiting r = (r.closing ≡ false) × (r.reachable ≡ false)

-- A round that reaches the server.
abbrev pub IsReaching : Round → Type 0
IsReaching r = (r.closing ≡ false) × (r.reachable ≡ true)

wake_loop-reached :
    (n : Network) (early : List Round) (r : Round) (later : List Round) (body s : List ℕ)
    → All IsWaiting early
    → IsReaching r
    → wake_loop n (early ++ r ∷ later) body s ≡ pipe n body s
unfolding wake_loop
wake_loop-reached n [] r later body s h (stays, reached) = rw (stays, reached) refl
wake_loop-reached n (w ∷ early) r later body s ((stays, shut), h) reached =
    rw (stays, shut) (wake_loop-reached n early r later body s h reached)

wake_loop-late :
    (n : Network) (rounds : List Round) (body s : List ℕ)
    → All IsWaiting rounds
    → wake_loop n rounds body s ≡ telling (write_login_disconnect still_starting_text)
unfolding wake_loop
wake_loop-late n [] body s h = refl
wake_loop-late n (w ∷ rounds) body s ((stays, shut), h) =
    rw (stays, shut) (wake_loop-late n rounds body s h)

-- The client reads this text under packet id 0 and nothing behind it.
abbrev pub IsTold : List ℕ → Session → Type 0
IsTold message session = client_reads session.to_client ≡ ok ((pos 0, chat_component message), [])

pub telling-IsTold :
    (message : List ℕ)
    → length (chat_component message) ≤ max_string_length
    → IsTold message (telling (write_login_disconnect message))
telling-IsTold message h =
    rw (← append-nil (write_login_disconnect message))
      (client_reads-write_login_disconnect message [] h)

length-still_starting : length (chat_component still_starting_text) ≤ max_string_length
unfolding chat_component quote_json
length-still_starting = omega arith

module _ {ℓ} {S : Type ℓ} (hooks : Hooks S) (marshal : StatusResponse → Option (List ℕ)) where
  -- A handshake for the login at a server that sleeps leads to the wake.
  handle-serve_wake :
      (n : Network) (s body rest : List ℕ) (h : Handshake) (state : S)
      → read_packet s ≡ ok (body, rest)
      → read_handshake body ≡ ok h
      → h.next_state ≡ state_login
      → hooks.awake state ≡ false
      → handle hooks marshal n s state ≡ after_wake n body rest (hooks.wake state)
  unfolding route serve_wake
  handle-serve_wake n s body rest h state e f login asleep =
      handle-route hooks marshal n s body rest h state e f ∙ rw (route, asleep) (rw login refl)

  -- A wake that succeeds: the first dial that reaches the server joins the player to it, who is not
  -- asked to connect again.
  pub handle_joins :
      (n : Network) (s body rest : List ℕ) (h : Handshake) (state t : S) (early : List Round)
      (r : Round) (later : List Round)
      → read_packet s ≡ ok (body, rest)
      → read_handshake body ≡ ok h
      → h.next_state ≡ state_login
      → hooks.awake state ≡ false
      → hooks.wake state ≡ (none, t)
      → n.rounds ≡ early ++ r ∷ later
      → All IsWaiting early
      → IsReaching r
      → Forwards n body rest (handle hooks marshal n s state).0
        × ((handle hooks marshal n s state).1 ≡ t)
  handle_joins n s body rest h state t early r later e f login asleep woken split waits reaches =
      rw (handle-serve_wake n s body rest h state e f login asleep) (
        rw woken (
          rw
            (ap (λ rs. wake_loop n rs body rest) split
              ∙ wake_loop-reached n early r later body rest waits reaches)
            (pipe-Forwards n body rest (omega (arith, read_packet_bounds s body rest e)), refl)))

  -- A wake that succeeds where no dial before the deadline reaches the server: the player reads that
  -- the realm is still starting.
  pub handle_late :
      (n : Network) (s body rest : List ℕ) (h : Handshake) (state t : S)
      → read_packet s ≡ ok (body, rest)
      → read_handshake body ≡ ok h
      → h.next_state ≡ state_login
      → hooks.awake state ≡ false
      → hooks.wake state ≡ (none, t)
      → All IsWaiting n.rounds
      → IsTold still_starting_text (handle hooks marshal n s state).0
        × ((handle hooks marshal n s state).1 ≡ t)
  handle_late n s body rest h state t e f login asleep woken waits =
      rw (handle-serve_wake n s body rest h state e f login asleep) (
        rw woken (
          rw (wake_loop-late n n.rounds body rest waits)
            (telling-IsTold still_starting_text length-still_starting, refl)))

  -- A wake that fails: the player reads its error, if that fits a string of the protocol.
  pub handle_refused :
      (n : Network) (s body rest message : List ℕ) (h : Handshake) (state t : S)
      → read_packet s ≡ ok (body, rest)
      → read_handshake body ≡ ok h
      → h.next_state ≡ state_login
      → hooks.awake state ≡ false
      → hooks.wake state ≡ (some message, t)
      → length (chat_component (could_not_start_text message)) ≤ max_string_length
      → IsTold (could_not_start_text message) (handle hooks marshal n s state).0
        × ((handle hooks marshal n s state).1 ≡ t)
  handle_refused n s body rest message h state t e f login asleep woken fits =
      rw (handle-serve_wake n s body rest h state e f login asleep)
        (rw woken (telling-IsTold (could_not_start_text message) fits, refl))
