-- ===== src/Players.antt =====
-- The whitelist and the operators of a server in backend/api/whitelist.go: one of its two player files,
-- and the commands that its console got. The lookup of a player's uuid is an argument.
pub mod Listing
mod Tests
use realmrunner.Common.{ℕ, String, Bool, true, false, not, ◌&&◌, ◌||◌, Option, none, some}
use realmrunner.Common.{List, [], ◌∷◌, ◌++◌, if◌then◌else◌, str_eq}

pub record PlayerEntry : Type 0 where
  pub uuid : String
  pub name : String

-- What is on the disk: no file, one that is no list of players, or a list.
pub data PlayerFile : Type 0 where
  no_file broken : PlayerFile
  players : List PlayerEntry → PlayerFile

-- How a write ends, with what a write that fails leaves.
pub data Write : Type 0 where
  written : Write
  write_failed : PlayerFile → Write

-- A command of the console, the latest first.
pub data Command : Type 0 where
  whitelist_reload : Command
  whitelist_remove op deop : String → Command

pub record Desk : Type 0 where
  pub file : PlayerFile
  pub commands : List Command

pub data Reply : Type 0 where
  listed already_listed : List PlayerEntry → Reply
  command_sent server_not_found player_not_found internal_error : Reply

-- `entries, _ := readPlayerList(…)`
abbrev pub entries_of : PlayerFile → List PlayerEntry
entries_of no_file = []
entries_of broken = []
entries_of (players es) = es

-- readPlayerList; `none` is its error.
abbrev pub read_player_list : PlayerFile → Option (List PlayerEntry)
read_player_list no_file = some []
read_player_list broken = none
read_player_list (players es) = some es

abbrev pub shown : Option (List PlayerEntry) → Reply
shown none = internal_error
shown (some es) = listed es

-- GetWhitelist and GetOps
unfoldable pub get_players : Option Bool → Desk → Reply
get_players none d = server_not_found
get_players (some running) d = shown (read_player_list d.file)

abbrev pub has_uuid : String → List PlayerEntry → Bool
has_uuid uuid [] = false
has_uuid uuid (e ∷ es) = str_eq e.uuid uuid || has_uuid uuid es

unfoldable pub without_uuid : String → List PlayerEntry → List PlayerEntry
without_uuid uuid [] = []
without_uuid uuid (e ∷ es) =
    let rest = without_uuid uuid es in if str_eq e.uuid uuid then rest else e ∷ rest

-- The name of the last entry with the uuid, from the one that was found so far.
abbrev pub name_of : String → String → List PlayerEntry → String
name_of uuid found [] = found
name_of uuid found (e ∷ es) = name_of uuid (if str_eq e.uuid uuid then e.name else found) es

-- writePlayerList
abbrev pub write_player_list : Write → List PlayerEntry → PlayerFile
write_player_list written es = players es
write_player_list (write_failed left) es = left

abbrev pub works : Write → Bool
works written = true
works (write_failed left) = false

abbrev pub commanding : Bool → Command → List Command → List Command
commanding running command commands = if running then command ∷ commands else commands

-- AddToWhitelist behind the lookup
abbrev pub whitelist_found : Bool → String → Write → Desk → Option String → Reply × Desk
whitelist_found running name w d none = (player_not_found, d)
whitelist_found running name w d (some uuid) =
    let es = entries_of d.file in
    let es' = es ++ record { uuid = uuid; name = name } ∷ [] in
    let file = write_player_list w es' in
    if has_uuid uuid es
    then (already_listed es, d)
    else if works w
    then (
      listed es',
      record { file = file; commands = commanding running whitelist_reload d.commands },
    )
    else (internal_error, record d { file = file })

-- AddToWhitelist. The server is missing, or running or not.
unfoldable pub add_to_whitelist : Option Bool → String → Option String → Write → Desk → Reply × Desk
add_to_whitelist none name uuid w d = (server_not_found, d)
add_to_whitelist (some running) name uuid w d = whitelist_found running name w d uuid

-- RemoveFromWhitelist
unfoldable pub remove_from_whitelist : Option Bool → String → Write → Desk → Reply × Desk
unfolding without_uuid
remove_from_whitelist none uuid w d = (server_not_found, d)
remove_from_whitelist (some running) uuid w d =
    let es = without_uuid uuid (entries_of d.file) in
    let name = name_of uuid "" (entries_of d.file) in
    let file = write_player_list w es in
    if works w
    then (
      listed es,
      record {
        file = file;
        commands = commanding (running && not (str_eq name "")) (whitelist_remove name) d.commands;
      },
    )
    else (internal_error, record d { file = file })

-- AddOp behind the lookup, for a server that does not run. The error of the write is not looked at.
abbrev pub op_found : String → Write → Desk → Option String → Reply × Desk
op_found name w d none = (player_not_found, d)
op_found name w d (some uuid) =
    let es = entries_of d.file in
    let es' = es ++ record { uuid = uuid; name = name } ∷ [] in
    if has_uuid uuid es
    then (already_listed es, d)
    else (listed es', record d { file = write_player_list w es' })

-- AddOp
unfoldable pub add_op : Option Bool → String → Option String → Write → Desk → Reply × Desk
add_op none name uuid w d = (server_not_found, d)
add_op (some true) name uuid w d = (command_sent, record d { commands = op name ∷ d.commands })
add_op (some false) name uuid w d = op_found name w d uuid

-- RemoveOp
unfoldable pub remove_op : Option Bool → String → Write → Desk → Reply × Desk
unfolding without_uuid
remove_op none uuid w d = (server_not_found, d)
remove_op (some running) uuid w d =
    let es = without_uuid uuid (entries_of d.file) in
    let name = name_of uuid "" (entries_of d.file) in
    (
      listed es,
      record {
        file = write_player_list w es;
        commands = commanding (running && not (str_eq name "")) (deop name) d.commands;
      },
    )
