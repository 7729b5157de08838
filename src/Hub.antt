-- ===== src/Hub.antt =====
-- backend/websocket/hub.go: the clients of each server and their `send` channels. A client is its
-- number; `server_of` is its field serverID. Each case of the loop of Run is one operation.
pub mod Sets
pub mod Safety
pub mod Closing
pub mod Broadcasting
mod Tests
use realmrunner.Common.{ℕ, ◌==◌, String, Bool, true, false, ◌||◌, Option, none, some}
use realmrunner.Common.{List, [], ◌∷◌, if◌then◌else◌}
use realmrunner.Common.Assoc.{Assoc, lookup, erase, insert}

-- `closed` has the clients whose channel is closed, and `sent` what was put into channels, the latest
-- first. `panicked` is set by a close or a send on a closed channel.
pub record Hub : Type 0 where
  pub clients : Assoc (List ℕ)
  pub closed : List ℕ
  pub sent : List (ℕ × List ℕ)
  pub panicked : Bool

-- NewHub
abbrev pub new_hub : Hub
new_hub = record { clients = []; closed = []; sent = []; panicked = false }

abbrev pub is_in : ℕ → List ℕ → Bool
is_in c [] = false
is_in c (d ∷ ds) = (d == c) || is_in c ds

unfoldable pub leave_out : ℕ → List ℕ → List ℕ
leave_out c [] = []
leave_out c (d ∷ ds) = let rest = leave_out c ds in if d == c then rest else d ∷ rest

abbrev pub or_nobody : Option (List ℕ) → List ℕ
or_nobody none = []
or_nobody (some cs) = cs

-- `h.clients[server]`
unfoldable pub members : String → Hub → List ℕ
unfolding lookup
members server h = or_nobody (lookup server h.clients)

abbrev pub with_member : ℕ → List ℕ → List ℕ
with_member c cs = if is_in c cs then cs else c ∷ cs

-- `close(client.send)`
unfoldable pub close_channel : ℕ → Hub → Hub
close_channel c h =
    if is_in c h.closed then record h { panicked = true } else record h { closed = c ∷ h.closed }

-- `client.send <- message`, where there is room
unfoldable pub send_to : ℕ → List ℕ → Hub → Hub
send_to c message h =
    if is_in c h.closed
    then record h { panicked = true }
    else record h { sent = (c, message) ∷ h.sent }

-- The set of a server without clients is deleted.
abbrev pub shrunk : String → List ℕ → Assoc (List ℕ) → Assoc (List ℕ)
shrunk server [] table = erase server table
shrunk server (c ∷ cs) table = insert server (c ∷ cs) table

module _ (server_of : ℕ → String) where
  -- `<-h.register`
  unfoldable pub register : ℕ → Hub → Hub
  unfolding members insert
  register c h = record h {
    clients = insert (server_of c) (with_member c (members (server_of c) h)) h.clients;
  }

  -- `<-h.unregister`
  unfoldable pub unregister : ℕ → Hub → Hub
  unfolding members insert erase leave_out close_channel
  unregister c h =
      let left = leave_out c (members (server_of c) h) in
      if is_in c (members (server_of c) h)
      then close_channel c (record h { clients = shrunk (server_of c) left h.clients })
      else h

-- A client whose channel is full: it is closed, and taken out of the set.
unfoldable pub drop_client : String → ℕ → Hub → Hub
unfolding close_channel members insert leave_out
drop_client server c h =
    let h' = close_channel c h in
    record h' { clients = insert server (leave_out c (members server h)) h'.clients }

-- The loop of `<-h.broadcast`; `has_room` says which channels have room.
unfoldable pub deliver : String → List ℕ → (ℕ → Bool) → List ℕ → Hub → Hub
unfolding send_to drop_client
deliver server message has_room [] h = h
deliver server message has_room (c ∷ cs) h =
    deliver server message has_room cs
      (if has_room c then send_to c message h else drop_client server c h)

unfoldable pub broadcast : String → List ℕ → (ℕ → Bool) → Hub → Hub
unfolding deliver members
broadcast server message has_room h = deliver server message has_room (members server h) h
