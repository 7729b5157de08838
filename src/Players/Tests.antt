-- ===== src/Players/Tests.antt =====
-- The theorem on backend/api/whitelist.go at a few requests.
use realmrunner.Common.{◌≡◌, true, false, Bool, List, [], ◌∷◌}
use realmrunner.Players.{Desk, no_file, entries_of, has_uuid}
use realmrunner.Players.Listing.{
  Request, adding, removing, IsUnique, serve_all, wanted, serve_all-wanted,
}

abbrev visits : List (Bool × Request)
visits =
    (false, adding "eve" "e1")
    ∷ (true, adding "bob" "b1")
    ∷ (true, removing "e1")
    ∷ (true, adding "bob" "b1")
    ∷ []

abbrev empty_desk : Desk
empty_desk = record { file = no_file; commands = [] }

serve_all-wanted_example :
    (has_uuid "b1" (entries_of (serve_all visits empty_desk).file) ≡ wanted visits "b1" false)
    × IsUnique (entries_of (serve_all visits empty_desk).file)
serve_all-wanted_example = serve_all-wanted visits "b1" empty_desk tt
