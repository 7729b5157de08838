-- ===== src/SleepProxy/Forwarding.antt =====
-- What a server behind the proxy of backend/sleepproxy/proxy.go reads, and when the proxy wakes it.
use realmrunner.Common.{ℕ, ◌≤◌, ◌≡◌, ◌≢◌, inl, inr, refl, ap, true, false, Option, none, some}
use realmrunner.Common.{List, ◌++◌, length, take, arith, Bool-cases}
use realmrunner.Common.Int.{ℤ, pos, negsuc, eq_ℤ}
use realmrunner.Mcproto.Stream.{ok, Result-cases}
use realmrunner.Mcproto.Packet.{max_packet_size, read_packet, write_packet}
use realmrunner.Mcproto.Packet.RoundTrip.{read_packet-write_packet, read_packet_bounds}
use realmrunner.Mcproto.Handshake.{Handshake, read_handshake, state_status, state_login}
use realmrunner.SleepProxy.{
  Hooks, StatusResponse, Network, Session, pipe, pipe_to_server, serve_wake, after_wake, route,
  handle,
}

-- The server reads the packet `body` and then what was copied of `rest`; the client gets its reply.
abbrev pub Forwards : Network → List ℕ → List ℕ → Session → Type 0
Forwards n body rest session =
    (bytes : List ℕ) × (session.to_server ≡ some bytes)
    × (read_packet bytes ≡ ok (body, take n.forwarded rest))
    × (session.to_client ≡ n.reply)

pub pipe-Forwards :
    (n : Network) (body rest : List ℕ)
    → length body ≤ max_packet_size
    → Forwards n body rest (pipe n body rest)
unfolding pipe
pipe-Forwards n body rest h = (
  write_packet body ++ take n.forwarded rest,
  refl,
  read_packet-write_packet body (take n.forwarded rest) h,
  refl,
)

eq_ℤ→≡ : (a b : ℤ) → eq_ℤ a b ≡ true → a ≡ b
eq_ℤ→≡ (pos a) (pos b) h = ap pos (ground arith)
eq_ℤ→≡ (negsuc a) (negsuc b) h = ap negsuc (ground arith)
eq_ℤ→≡ (pos a) (negsuc b) h = cc
eq_ℤ→≡ (negsuc a) (pos b) h = cc

module _ {ℓ} {S : Type ℓ} (hooks : Hooks S) (marshal : StatusResponse → Option (List ℕ)) where
  -- A connection whose first packet is a handshake goes the way of that handshake.
  pub handle-route :
      (n : Network) (s body rest : List ℕ) (h : Handshake) (state : S)
      → read_packet s ≡ ok (body, rest)
      → read_handshake body ≡ ok h
      → handle hooks marshal n s state ≡ route hooks marshal n h body rest state
  unfolding handle
  handle-route n s body rest h state e f = rw (handle, e) (rw f refl)

  -- While the server runs and answers a dial, every connection with a handshake, for the status as for
  -- the login, reaches it: the server reads the packet that the client sent first and then the
  -- bytes that are copied, the client gets what the server sends, and the state stays.
  pub handle_awake-Forwards :
      (n : Network) (s body rest : List ℕ) (h : Handshake) (state : S)
      → read_packet s ≡ ok (body, rest)
      → read_handshake body ≡ ok h
      → hooks.awake state ≡ true
      → n.answers ≡ true
      → Forwards n body rest (handle hooks marshal n s state).0
        × ((handle hooks marshal n s state).1 ≡ state)
  handle_awake-Forwards n s body rest h state e f awake up =
      rw (handle-route n s body rest h state e f) (
        unfold route in
        (rw awake (
          unfold pipe_to_server in
          rw up
            (pipe-Forwards n body rest (omega (arith, read_packet_bounds s body rest e)), refl))))

  after_wake_state :
      (n : Network) (body s : List ℕ) (r : Option (List ℕ) × S) → (after_wake n body s r).1 ≡ r.1
  after_wake_state n body s (none, t) = refl
  after_wake_state n body s (some message, t) = refl

  login_state :
      (n : Network) (h : Handshake) (body s : List ℕ) (state : S)
      → hooks.awake state ≡ false
      → eq_ℤ h.next_state state_login ≡ true
      → (route hooks marshal n h body s state).1 ≡ (hooks.wake state).1
  unfolding route serve_wake
  login_state n h body s state awake login =
      let is : h.next_state ≡ state_login = eq_ℤ→≡ h.next_state state_login login in
      rw (route, awake) (rw is (after_wake_state n body s (hooks.wake state)))

  other_state :
      (n : Network) (h : Handshake) (body s : List ℕ) (state : S)
      → hooks.awake state ≡ false
      → eq_ℤ h.next_state state_login ≡ false
      → (route hooks marshal n h body s state).1 ≡ state
  unfolding route
  other_state n h body s state awake login = elim (Bool-cases (eq_ℤ h.next_state state_status)) [
    | inl e ↦ rw (route, awake) (rw e refl)
    | inr e ↦ rw (route, awake) (rw (e, login) refl)
  ]

  route_state :
      (n : Network) (h : Handshake) (body s : List ℕ) (state : S)
      → (route hooks marshal n h body s state).1 ≢ state
      → (h.next_state ≡ state_login)
        × (hooks.awake state ≡ false)
        × ((route hooks marshal n h body s state).1 ≡ (hooks.wake state).1)
  unfolding route
  route_state n h body s state changed = elim (Bool-cases (hooks.awake state)) [
    | inl awake ↦ absurd (changed (rw (route, awake) refl))
    | inr awake ↦ elim (Bool-cases (eq_ℤ h.next_state state_login)) [
      | inl login ↦
          (eq_ℤ→≡ h.next_state state_login login, awake, login_state n h body s state awake login)
      | inr login ↦ absurd (changed (other_state n h body s state awake login))
    ]
  ]

  -- A connection changes the state of the application only by a wake, and only where the server was
  -- asleep and the client sent a handshake for the login: no status request wakes a server.
  pub handle_state :
      (n : Network) (s : List ℕ) (state : S)
      → (handle hooks marshal n s state).1 ≢ state
      → (body : List ℕ) × (rest : List ℕ) × (h : Handshake) × (read_packet s ≡ ok (body, rest))
        × (read_handshake body ≡ ok h)
        × (h.next_state ≡ state_login)
        × (hooks.awake state ≡ false)
        × ((handle hooks marshal n s state).1 ≡ (hooks.wake state).1)
  unfolding handle
  handle_state n s state changed = elim (Result-cases (read_packet s)) [
    | inr (x, e) ↦ absurd (changed (rw (handle, e) refl))
    | inl ((body, rest), e) ↦ elim (Result-cases (read_handshake body)) [
      | inr (x, f) ↦ absurd (changed (rw (handle, e) (rw f refl)))
      | inl (h, f) ↦
          let way = handle-route n s body rest h state e f in
          let (login, awake, woken) = route_state n h body rest state (rw way at changed) in
          (body, rest, h, e, f, login, awake, rw way woken)
    ]
  ]
