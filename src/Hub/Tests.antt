-- ===== src/Hub/Tests.antt =====
-- The theorems on backend/websocket/hub.go with two clients, one of which has a full channel.
use realmrunner.Common.{ℕ, ◌==◌, refl, not, String, Bool, List, [], ◌∷◌, if◌then◌else◌}
use realmrunner.Hub.{Hub, new_hub, register, broadcast}
use realmrunner.Hub.Closing.{Reach, here, further, registers, broadcasts, Reach-IsSafe}
use realmrunner.Hub.Safety.{IsSafe}

abbrev server_of : ℕ → String
server_of c = "lobby"

abbrev has_room : ℕ → Bool
has_room c = not (c == 2)

abbrev two_clients : Hub
two_clients = register server_of 2 (register server_of 1 new_hub)

reaches_two : Reach server_of two_clients
unfolding register
reaches_two = further (further here (registers 1 refl)) (registers 2 refl)

Reach-IsSafe_example : IsSafe server_of (broadcast "lobby" (7 ∷ []) has_room two_clients)
Reach-IsSafe_example =
    Reach-IsSafe server_of (broadcast "lobby" (7 ∷ []) has_room two_clients)
      (further reaches_two (broadcasts "lobby" (7 ∷ []) has_room))
