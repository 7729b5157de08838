-- ===== src/Hub/Broadcasting.antt =====
-- What a broadcast of backend/websocket/hub.go does to each client.
use realmrunner.Common.{ℕ, ◌==◌, ◌≡◌, String, Bool, ◌||◌, not, ◌&&◌}
use realmrunner.Common.{List, [], ◌∷◌, if◌then◌else◌}
use realmrunner.Hub.{Hub, is_in, members}

-- The messages that were put into a client's channel, the latest first.
pub received : ℕ → List (ℕ × List ℕ) → List (List ℕ)
received c [] = []
received c (entry ∷ log) =
    let earlier = received c log in if entry.0 == c then entry.1 ∷ earlier else earlier

module _ (server_of : ℕ → String) (server : String) (message : List ℕ) (has_room : ℕ → Bool) where
  -- The end `t` of a round of sends to `cs` that began with `h`, for one client.
  abbrev IsServed : List ℕ → ℕ → Hub → Hub → Type 0
  IsServed cs c h t =
      (received c t.sent
        ≡ (if is_in c cs && has_room c then message ∷ received c h.sent else received c h.sent))
      × (is_in c (members server t)
          ≡ (not (is_in c cs && not (has_room c)) && is_in c (members server h)))
      × (is_in c t.closed ≡ (is_in c cs && not (has_room c) || is_in c h.closed))
