-- ===== src/Server/Sleep/Idle.antt =====
-- The idle watcher of backend/server/sleep.go, and Sleep. How many players a server reports is an
-- argument.
use realmrunner.Common.{ℕ, ◌-◌, ◌*◌, String, Bool, ◌||◌, not, Option, none, some}
use realmrunner.Common.{List, [], ◌∷◌, ltb, leb, if◌then◌else◌}
use realmrunner.Common.Int.{is_pos, pos_part}
use realmrunner.Common.Assoc.{lookup, insert, erase}
use realmrunner.Server.Store.{
  sleeping, is_running, Server, get_server, update_server_status, set_auto_restart,
}
use realmrunner.Server.Crash.{reset}
use realmrunner.Server.Manager.State.{Manager, Outcome, with_db, not_found, auto_sleep_off}
use realmrunner.Server.Manager.Stop.{stop_server}

abbrev pub marked : String → Manager → Option ℕ → ℕ × Manager
marked id m none = (0, record m { sleep_states = insert id m.now m.sleep_states })
marked id m (some since) = (m.now - since, m)

-- markIdle: for how long the server has been empty.
unfoldable pub mark_idle : String → Manager → ℕ × Manager
unfolding lookup insert
mark_idle id m = marked id m (lookup id m.sleep_states)

unfoldable pub clear_idle : String → Manager → Manager
unfolding erase
clear_idle id m = record m { sleep_states = erase id m.sleep_states }

abbrev pub sleep_stopped : String → Outcome → Outcome
sleep_stopped id (some f, m) = (some f, m)
sleep_stopped id (none, m) = (none, with_db m (update_server_status id sleeping m.db))

abbrev pub sleep_found : String → Manager → Option Server → Outcome
sleep_found id m none = (some not_found, m)
sleep_found id m (some s) =
    if not s.auto_sleep then (some auto_sleep_off, m) else sleep_stopped id (stop_server id m)

-- Sleep; the warning that it sends over RCON changes nothing here.
unfoldable pub sleep : String → Manager → Outcome
unfolding get_server stop_server update_server_status
sleep id m = sleep_found id m (get_server id m.db)

-- In seconds.
abbrev pub idle_timeout : Server → ℕ
idle_timeout s = if is_pos s.idle_timeout_min then pos_part s.idle_timeout_min * 60 else 900

abbrev pub idle_for : Server → ℕ × Manager → Manager
idle_for s (time, m) =
    let slept = sleep s.id m in if leb (idle_timeout s) time then clear_idle s.id slept.1 else m

abbrev pub asked : Server → Manager → Option ℕ → Manager
asked s m none = m
asked s m (some players) =
    if ltb 0 players then clear_idle s.id m else idle_for s (mark_idle s.id m)

-- The body of the loop of checkIdleServers, with what PlayerCount answers.
unfoldable pub check_idle : Option ℕ → Server → Manager → Manager
unfolding clear_idle mark_idle sleep
check_idle players s m =
    if not s.auto_sleep || not (is_running s.status) then clear_idle s.id m else asked s m players

-- checkIdleServers, over the rows that were read at its start.
unfoldable pub check_idle_servers : (String → Option ℕ) → List Server → Manager → Manager
unfolding check_idle
check_idle_servers players [] m = m
check_idle_servers players (s ∷ servers) m =
    check_idle_servers players servers (check_idle (players s.id) s m)

abbrev pub restart_setting_found : String → Bool → Manager → Option Server → Outcome
restart_setting_found id enabled m none = (some not_found, m)
restart_setting_found id enabled m (some s) =
    (none, record m { attempts = reset id m.attempts; db = set_auto_restart id enabled m.db })

-- SetAutoRestart of the manager
unfoldable pub change_auto_restart : String → Bool → Manager → Outcome
unfolding get_server reset set_auto_restart
change_auto_restart id enabled m = restart_setting_found id enabled m (get_server id m.db)
