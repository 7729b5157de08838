-- ===== src/Hub/Closing.antt =====
-- The hub of backend/websocket/hub.go closes each channel once and never sends on a closed one.
use realmrunner.Common.{ℕ, ◌≡◌, String, Bool, false}
use realmrunner.Common.{List}
use realmrunner.Hub.{Hub, new_hub, is_in, register, unregister, broadcast}
use realmrunner.Hub.Safety.{
  IsSafe, empty-IsSafe, broadcast-IsSafe, register-IsSafe, unregister-IsSafe,
}

-- What the loop of Run does with its channels. A client registers before its channel is closed.
pub data Step (server_of : ℕ → String) (h : Hub) : Hub → Type 0 where
  registers : (c : ℕ) → is_in c h.closed ≡ false → Step server_of h (register server_of c h)
  unregisters : (c : ℕ) → Step server_of h (unregister server_of c h)
  broadcasts :
      (server : String) (message : List ℕ) (has_room : ℕ → Bool)
      → Step server_of h (broadcast server message has_room h)

pub data Reach (server_of : ℕ → String) : Hub → Type 0 where
  here : Reach server_of new_hub
  further : {h t : Hub} → Reach server_of h → Step server_of h t → Reach server_of t

step-IsSafe :
    (server_of : ℕ → String) {h t : Hub}
    → Step server_of h t
    → IsSafe server_of h
    → IsSafe server_of t
step-IsSafe server_of {h} (registers c e) safe = register-IsSafe server_of c h safe e
step-IsSafe server_of {h} (unregisters c) safe = unregister-IsSafe server_of c h safe
step-IsSafe server_of {h} (broadcasts server message has_room) safe =
    broadcast-IsSafe server_of server message has_room h safe

-- However registrations of clients that were not closed, requests to unregister, and broadcasts follow
-- one another, whatever channels are full: the hub has not closed a closed channel or sent on one, and
-- each client that it has for a server is there once, belongs to that server, and has an open channel.
pub Reach-IsSafe : (server_of : ℕ → String) (h : Hub) → Reach server_of h → IsSafe server_of h
Reach-IsSafe server_of h here = empty-IsSafe server_of
Reach-IsSafe server_of h (further r s) = step-IsSafe server_of s (Reach-IsSafe server_of _ r)
