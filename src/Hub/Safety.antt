-- ===== src/Hub/Safety.antt =====
-- Each operation of the hub of backend/websocket/hub.go keeps every channel of a client that it has open.
use realmrunner.Common.{
  ℕ, ◌==◌, ◌≡◌, ◌∙◌, refl, ap, inl, inr, String, Bool, true, false, ◌||◌, not, ◌&&◌,
}
use realmrunner.Common.{List, [], ◌∷◌, if◌then◌else◌, arith, Bool-cases}
use realmrunner.Common.{str_eq, str_eq_iff}
use realmrunner.Common.Assoc.{lookup, insert, lookup-insert}
use realmrunner.Hub.{
  Hub, new_hub, is_in, leave_out, members, with_member, close_channel, send_to, register, shrunk,
  unregister, drop_client, deliver, broadcast,
}
use realmrunner.Hub.Sets.{
  Unique, is_in-leave_out, leave_out-Unique, with_member-Unique, members-insert, members-shrunk,
}

module _ (server_of : ℕ → String) where
  -- The clients of a server are its own, listed once, with an open channel; and nothing panicked.
  pub record IsSafe (h : Hub) : Type 0 where
    pub calm : h.panicked ≡ false
    pub unique : (server : String) → Unique (members server h)
    pub own : (server : String) (c : ℕ) → is_in c (members server h) ≡ true → server_of c ≡ server
    pub unclosed :
        (server : String) (c : ℕ) → is_in c (members server h) ≡ true → is_in c h.closed ≡ false

  pub empty-IsSafe : IsSafe new_hub
  empty-IsSafe =
      unfold members in
      record {
        calm = refl;
        unique = λ server. unfold lookup in tt;
        own = λ server c e. absurd (unfold lookup in ground (arith, e));
        unclosed = λ server c e. refl;
      }

  -- A client's channel is closed and the client leaves the set.
  abbrev pub dropped : String → ℕ → Hub → Hub
  dropped server c h = record h {
    closed = c ∷ h.closed;
    clients = insert server (leave_out c (members server h)) h.clients;
  }

  pub drop_client-dropped :
      (server : String) (c : ℕ) (h : Hub)
      → is_in c h.closed ≡ false
      → drop_client server c h ≡ dropped server c h
  unfolding drop_client close_channel
  drop_client-dropped server c h e = rw (close_channel, e) refl

  pub members-dropped :
      (server s : String) (c : ℕ) (h : Hub)
      → members s (dropped server c h)
        ≡ (if str_eq server s then leave_out c (members server h) else members s h)
  unfolding members
  members-dropped server s c h = rw lookup-insert (ground arith)

  -- A hub in which a client has been closed and taken out of the set of its server.
  record IsWithout (server : String) (c : ℕ) (h h' : Hub) : Type 0 where
    pub same_panic : h'.panicked ≡ h.panicked
    pub one_closed : h'.closed ≡ c ∷ h.closed
    pub one_left :
        (s : String)
        → members s h' ≡ (if str_eq server s then leave_out c (members server h) else members s h)

  is_in-without :
      (server s : String) (c d : ℕ) (h h' : Hub)
      → IsWithout server c h h'
      → is_in d (members s h') ≡ (
          if str_eq server s
          then not (c == d) && is_in d (members server h)
          else is_in d (members s h))
  is_in-without server s c d h h' w =
      ground (arith, w.one_left s, is_in-leave_out c d (members server h))

  if-Unique : (b : Bool) (xs ys : List ℕ) → Unique xs → Unique ys → Unique (if b then xs else ys)
  if-Unique true xs ys p q = p
  if-Unique false xs ys p q = q

  without-IsSafe :
      (server : String) (c : ℕ) (h h' : Hub)
      → IsWithout server c h h'
      → IsSafe h
      → server_of c ≡ server
      → IsSafe h'
  without-IsSafe server c h h' w safe mine = record {
    calm = w.same_panic ∙ safe.calm;
    unique = λ s. rw (w.one_left s) (
        if-Unique (str_eq server s) (leave_out c (members server h)) (members s h)
          (leave_out-Unique c (members server h) (safe.unique server)) (safe.unique s));
    own = λ s d e. ground (
      arith,
      is_in-without server s c d h h' w,
      str_eq_iff server s,
      safe.own server d,
      safe.own s d,
      e,
    );
    unclosed = λ s d e. rw w.one_closed (
        ground (
          arith,
          is_in-without server s c d h h' w,
          str_eq_iff server s,
          safe.own s d,
          safe.unclosed server d,
          safe.unclosed s d,
          mine,
          e,
        ));
  }

  dropped-IsSafe :
      (server : String) (c : ℕ) (h : Hub)
      → IsSafe h
      → server_of c ≡ server
      → IsSafe (dropped server c h)
  dropped-IsSafe server c h = without-IsSafe server c h (dropped server c h) (record {
    same_panic = refl;
    one_closed = refl;
    one_left = λ s. members-dropped server s c h;
  })

  sent-IsSafe :
      (c : ℕ) (message : List ℕ) (h : Hub)
      → IsSafe h
      → IsSafe (record h { sent = (c, message) ∷ h.sent })
  unfolding members
  sent-IsSafe c message h safe = record {
    calm = safe.calm;
    unique = safe.unique;
    own = safe.own;
    unclosed = safe.unclosed;
  }

  deliver-IsSafe :
      (server : String) (message : List ℕ) (has_room : ℕ → Bool) (cs : List ℕ) (h : Hub)
      → IsSafe h
      → Unique cs
      → ((d : ℕ) → is_in d cs ≡ true → server_of d ≡ server)
      → ((d : ℕ) → is_in d cs ≡ true → is_in d h.closed ≡ false)
      → IsSafe (deliver server message has_room cs h)
  unfolding deliver
  deliver-IsSafe server message has_room [] h safe u mine opened = safe
  deliver-IsSafe server message has_room (c ∷ cs) h safe (a, u) mine opened =
      let open_c : is_in c h.closed ≡ false = opened c (ground arith) in
      let mine' : (d : ℕ) → is_in d cs ≡ true → server_of d ≡ server =
        λ d e. mine d (rw e (ground arith)) in
      elim (Bool-cases (has_room c)) [
        | inl e ↦
            rw (deliver, e)
              (rw (send_to, open_c)
                (deliver-IsSafe server message has_room cs
                  (record h { sent = (c, message) ∷ h.sent }) (sent-IsSafe c message h safe) u mine'
                  (λ d e. opened d (rw e (ground arith)))))
        | inr e ↦
            rw (deliver, e)
              (rw (drop_client-dropped server c h open_c) (
                deliver-IsSafe server message has_room cs (dropped server c h)
                  (dropped-IsSafe server c h safe (mine c (ground arith))) u mine'
                  (λ d e. ground (arith, a, e, opened d))))
      ]

  pub broadcast-IsSafe :
      (server : String) (message : List ℕ) (has_room : ℕ → Bool) (h : Hub)
      → IsSafe h
      → IsSafe (broadcast server message has_room h)
  unfolding broadcast
  broadcast-IsSafe server message has_room h safe =
      deliver-IsSafe server message has_room (members server h) h safe (safe.unique server)
        (safe.own server) (safe.unclosed server)

  is_in-with_member :
      (c d : ℕ) (cs : List ℕ) → is_in d (with_member c cs) ≡ ((c == d) || is_in d cs)
  is_in-with_member c d cs = ground arith

  is_in-register :
      (c d : ℕ) (s : String) (h : Hub)
      → is_in d (members s (register server_of c h)) ≡ (
          if str_eq (server_of c) s
          then (c == d) || is_in d (members (server_of c) h)
          else is_in d (members s h))
  unfolding register
  is_in-register c d s h =
      let mine = members (server_of c) h in
      ap (is_in d) (members-insert (server_of c) s (with_member c mine) h)
      ∙ ground (arith, is_in-with_member c d mine)

  pub register-IsSafe :
      (c : ℕ) (h : Hub) → IsSafe h → is_in c h.closed ≡ false → IsSafe (register server_of c h)
  unfolding register
  register-IsSafe c h safe fresh = record {
    calm = safe.calm;
    unique = λ s. rw (members-insert (server_of c) s (with_member c (members (server_of c) h)) h) (
        if-Unique (str_eq (server_of c) s) (with_member c (members (server_of c) h)) (members s h)
          (with_member-Unique c (members (server_of c) h) (safe.unique (server_of c)))
          (safe.unique s));
    own = λ s d e. ground (
      arith,
      is_in-register c d s h,
      str_eq_iff (server_of c) s,
      safe.own s d,
      safe.own (server_of c) d,
      e,
    );
    unclosed = λ s d e.
        ground (
          arith,
          is_in-register c d s h,
          safe.unclosed s d,
          safe.unclosed (server_of c) d,
          fresh,
          e,
        );
  }

  pub unregister-IsSafe : (c : ℕ) (h : Hub) → IsSafe h → IsSafe (unregister server_of c h)
  unfolding unregister close_channel
  unregister-IsSafe c h safe = elim (Bool-cases (is_in c (members (server_of c) h))) [
    | inr e ↦ rw (unregister, e) safe
    | inl e ↦
        let opened = safe.unclosed (server_of c) c e in
        let left = leave_out c (members (server_of c) h) in
        let out = record h {
          closed = c ∷ h.closed;
          clients = shrunk (server_of c) left h.clients;
        } in
        rw (unregister, e)
          (rw (close_channel, opened)
            (without-IsSafe (server_of c) c h out
              (record {
                same_panic = refl;
                one_closed = refl;
                one_left = λ s. members-shrunk (server_of c) s left h;
              })
              safe refl))
  ]
