-- ===== src/Server/Tests.antt =====
-- The theorems on backend/server at concrete servers.
use realmrunner.Common.{◌≡◌, ◌⊎◌, ◌≤◌, ◌<◌, ◌+◌, ◌*◌, ◌/◌, refl, true, none, some, [], ◌∷◌, arith}
use realmrunner.Common.Int.{pos, is_pos}
use realmrunner.Common.Assoc.{lookup}
use realmrunner.Server.Store.{
  Status, stopped, running, sleeping, crashed, Server, Db, get_server, count_running,
}
use realmrunner.Server.Crash.{WaitResult, exit_code, next, reset, delay_at, restart_delays}
use realmrunner.Server.Crash.Backoff.{after, next-after-reset}
use realmrunner.Server.Store.Columns.{status_of}
use realmrunner.Server.Manager.State.{World, Launch, Monitor, Manager, limit_reached}
use realmrunner.Server.Manager.Start.{start_server}
use realmrunner.Server.Manager.Stop.{stop_server, process_exited}
use realmrunner.Server.Manager.Admin.{change_heap_mb}
use realmrunner.Server.Manager.Stopping.{Rests, stop_server-Rests}
use realmrunner.Server.Manager.Exits.{
  process_exited_requested, process_exited_crashed, process_exited_forgets,
}
use realmrunner.Server.Manager.Starts.{IsUp, start_server-IsUp}
use realmrunner.Server.Manager.Failures.{AtRest, start_server-AtRest}
use realmrunner.Server.Manager.Heaps.{RunsWith, change_heap_mb-start_server}
use realmrunner.Server.Sleep.Wake.{wake}
use realmrunner.Server.Sleep.Waking.{IsComing, wake-IsComing}
use realmrunner.Server.Sleep.Idle.{check_idle}
use realmrunner.Server.Sleep.Idling.{Sleeps, check_idle-Sleeps, check_idle_waits}

abbrev pub world : World
world = record {
  max_running = 1;
  port_min = 25565;
  port_max = 25600;
  memory_mb = 2048;
  java_overrides = λ major. "";
  runtimes = (21, "/opt/java/21/bin/java") ∷ [];
}

abbrev pub launch : Launch
launch = record { password = some "secret"; properties_written = true; pid = some 42 }

abbrev pub idle_server : Server
idle_server = record {
  id = "lobby";
  name = "Lobby";
  version = "1.20.4";
  flavor = "vanilla";
  port = 25565;
  status = stopped;
  cpu_limit = pos 0;
  memory_limit_mb = pos 2048;
  restart_schedule = "";
  ready = true;
  share_token = "";
  created_at = 0;
  last_started_at = none;
  rcon_port = 35565;
  rcon_password = "secret";
  auto_sleep = true;
  idle_timeout_min = pos 1;
  internal_port = 45565;
  heap_mb = pos 0;
  auto_restart = true;
  last_exit_code = pos 0;
  last_error = realmrunner.Server.Store.nothing_recorded;
}

abbrev pub lobby : Server
lobby = record idle_server { status = running }

abbrev pub resting : Manager
resting = record {
  db = idle_server ∷ [];
  processes = [];
  next_handle = 1;
  stop_requested = [];
  monitors = [];
  collecting = [];
  attempts = [];
  exit_descriptions = [];
  proxies = [];
  sleep_states = ("lobby", 100) ∷ [];
  restarts_due = [];
  now = 1000;
}

abbrev pub playing : Manager
playing = record resting { db = lobby ∷ []; processes = ("lobby", 0) ∷ [] }

abbrev monitor : Monitor
monitor = record { id = "lobby"; handle = 0; started_at = 900; listen_port = 45565; heap_mb = 1024 }

stop_server-Rests_example :
    ((stop_server "lobby" playing).0 ≡ none)
    × Rests "lobby" lobby playing (stop_server "lobby" playing).1
unfolding get_server
stop_server-Rests_example = stop_server-Rests "lobby" playing lobby refl refl

process_exited_crashed_example :
    (status_of "lobby" (process_exited monitor (exit_code (pos 1)) none playing).db ≡ some crashed)
    × ((process_exited monitor (exit_code (pos 1)) none playing).restarts_due
        ≡ ("lobby", 1010) ∷ [])
unfolding get_server realmrunner.Server.Crash.count lookup
process_exited_crashed_example =
    process_exited_crashed monitor (exit_code (pos 1)) none playing lobby refl refl

abbrev asked_to_stop : Manager
asked_to_stop = record playing { stop_requested = 0 ∷ [] }

process_exited_requested_example :
    (get_server "lobby" (process_exited monitor (exit_code (pos 0)) none asked_to_stop).db
      ≡ some (record lobby { status = sleeping }))
    × ((process_exited monitor (exit_code (pos 0)) none asked_to_stop).restarts_due ≡ [])
unfolding get_server
process_exited_requested_example =
    process_exited_requested monitor (exit_code (pos 0)) none asked_to_stop lobby refl refl

-- The entry is that of process 1, and the monitor that of process 0.
abbrev restarted : Manager
restarted = record playing { stop_requested = 0 ∷ []; processes = ("lobby", 1) ∷ [] }

process_exited_forgets_example :
    lookup "lobby" (process_exited monitor (exit_code (pos 0)) none restarted).processes ≡ none
process_exited_forgets_example = process_exited_forgets monitor (exit_code (pos 0)) none restarted

start_server-IsUp_example :
    (count_running resting.db < 1) × IsUp "lobby" (start_server world launch "lobby" resting).1
unfolding start_server get_server count_running realmrunner.Server.Crash.preflight_java
    realmrunner.Minecraft.Java.required_java_major realmrunner.Minecraft.Java.resolve_java
start_server-IsUp_example = start_server-IsUp world launch "lobby" resting refl

-- The running limit refuses the start.
abbrev pub full : Manager
full = record resting { db = idle_server ∷ record lobby { id = "arena"; port = 25566 } ∷ [] }

start_server-AtRest_example :
    ((start_server world launch "lobby" full).1 ≡ full)
    ⊎ AtRest "lobby" (start_server world launch "lobby" full).1
unfolding start_server count_running
start_server-AtRest_example = start_server-AtRest world launch "lobby" full limit_reached refl

change_heap_mb-start_server_example :
    RunsWith "lobby" 1024
      (start_server world launch "lobby" (change_heap_mb "lobby" (pos 1024) resting).1).1
    × (512 ≤ 1024)
    × (is_pos idle_server.memory_limit_mb ≡ true → 1024 * 4 / 3 + 256 ≤ 2048)
unfolding get_server change_heap_mb start_server count_running realmrunner.Server.Store.set_heap_mb
    realmrunner.Server.Store.update_where realmrunner.Server.Crash.preflight_java
    realmrunner.Minecraft.Java.required_java_major realmrunner.Minecraft.Java.resolve_java
change_heap_mb-start_server_example =
    change_heap_mb-start_server world launch "lobby" (pos 1024) resting idle_server refl refl refl
      refl

check_idle-Sleeps_example :
    Sleeps lobby (check_idle (some 0) lobby playing)
    × (lookup "lobby" (check_idle (some 0) lobby playing).sleep_states ≡ none)
unfolding get_server lookup
check_idle-Sleeps_example = check_idle-Sleeps lobby playing 100 refl refl refl refl (omega arith)

check_idle_waits_example :
    ((check_idle (some 3) lobby playing).db ≡ playing.db)
    × ((check_idle (some 3) lobby playing).processes ≡ playing.processes)
check_idle_waits_example = check_idle_waits (some 3) lobby playing (λ a r e. ground (arith, e))

next-after-reset_example :
    (next "lobby" (after 2 "lobby" (reset "lobby" (("lobby", 4) ∷ [])))).0 ≡ some 60
next-after-reset_example = next-after-reset 2 "lobby" (("lobby", 4) ∷ [])

wake-IsComing_example : IsComing "lobby" resting (wake world launch "lobby" resting).1
unfolding wake start_server get_server count_running realmrunner.Server.Crash.preflight_java
    realmrunner.Minecraft.Java.required_java_major realmrunner.Minecraft.Java.resolve_java
wake-IsComing_example = wake-IsComing world launch "lobby" resting refl
