-- ===== src/Server/Manager/Stop.antt =====
-- StopServer, ForceStopServer and monitorProcess of backend/server/manager.go, and handleCrash of
-- backend/server/crash.go.
use realmrunner.Common.{ℕ, ◌+◌, ◌-◌, String, Bool, true, false, ◌||◌, Option, none, some}
use realmrunner.Common.{List, [], ◌∷◌, leb, ◌==◌, if◌then◌else◌}
use realmrunner.Common.Int.{ℤ}
use realmrunner.Common.Assoc.{Assoc, lookup, insert, erase}
use realmrunner.Server.Store.{
  Status, starting, running, stopping, crashed, Reason, gave_up, exited, Server, get_server,
  update_server_status, record_exit,
}
use realmrunner.Server.Crash.{
  stable_uptime, next, reset, WaitResult, exit_code_of, exit_description, crash_reason, last_200,
}
use realmrunner.Server.Manager.State.{
  World, Launch, Monitor, Manager, Outcome, with_db, set_resting, not_found, not_running,
}
use realmrunner.Server.Manager.Start.{start_server}

abbrev pub can_stop : Status → Bool
can_stop running = true
can_stop starting = true
can_stop _ = false

abbrev pub can_force_stop : Status → Bool
can_force_stop running = true
can_force_stop starting = true
can_force_stop stopping = true
can_force_stop _ = false

-- Where there is a process: the collector stops, the flag is set and the entry goes.
unfoldable pub release_process : String → Manager → Option ℕ → Manager
unfolding erase
release_process id m none = m
release_process id m (some handle) = record m {
  collecting = erase id m.collecting;
  stop_requested = handle ∷ m.stop_requested;
  processes = erase id m.processes;
}

abbrev pub stop_found : String → Manager → Option Server → Outcome
stop_found id m none = (some not_found, m)
stop_found id m (some s) =
    let marked = with_db m (update_server_status id stopping m.db) in
    if can_stop s.status
    then (none, set_resting id (release_process id marked (lookup id marked.processes)))
    else (some not_running, m)

-- StopServer; `Process.Stop` returns no error on any path, and has waited when it returns.
unfoldable pub stop_server : String → Manager → Outcome
unfolding get_server update_server_status release_process set_resting lookup
stop_server id m = stop_found id m (get_server id m.db)

abbrev pub force_stop_found : String → Manager → Option Server → Outcome
force_stop_found id m none = (some not_found, m)
force_stop_found id m (some s) =
    if can_force_stop s.status
    then (none, set_resting id (release_process id m (lookup id m.processes)))
    else (some not_running, m)

-- ForceStopServer; it does not wait for the process to be gone.
unfoldable pub force_stop_server : String → Manager → Outcome
unfolding get_server release_process set_resting lookup
force_stop_server id m = force_stop_found id m (get_server id m.db)

abbrev pub has_handle : ℕ → List ℕ → Bool
has_handle h [] = false
has_handle h (k ∷ ks) = k == h || has_handle h ks

abbrev pub or_description : Option Reason → Option Reason → ℤ → Reason
or_description (some r) d code = r
or_description none (some d) code = d
or_description none none code = exited code

-- A stored description is taken only where the log explains nothing.
abbrev pub take_description : String → Option Reason → Assoc Reason → Assoc Reason
take_description id (some r) ds = ds
take_description id none ds = erase id ds

abbrev pub schedule_restart : String → ℤ → Reason → Manager → Option ℕ × Assoc ℕ → Manager
schedule_restart id code reason m (none, attempts) = record m {
  attempts = attempts;
  db = record_exit id code (gave_up reason) m.db;
}
schedule_restart id code reason m (some delay, attempts) = record m {
  attempts = attempts;
  restarts_due = (id, m.now + delay) ∷ m.restarts_due;
}

-- The log that ReadHistoricalLogs returns, or its failure.
abbrev pub log_reason : Option (List String) → Option Reason
log_reason none = none
log_reason (some lines) = crash_reason (last_200 lines)

abbrev pub crash_recorded : String → ℤ → Reason → Option Reason → Manager → Manager
crash_recorded id code reason found m = record m {
  exit_descriptions = take_description id found m.exit_descriptions;
  db = record_exit id code reason (update_server_status id crashed m.db);
}

abbrev pub crash_found : String → ℤ → Option Reason → Manager → Option Server → Manager
crash_found id code found m none = m
crash_found id code found m (some s) =
    let reason = or_description found (lookup id m.exit_descriptions) code in
    let recorded = crash_recorded id code reason found m in
    if s.auto_restart
    then schedule_restart id code reason recorded (next id recorded.attempts)
    else recorded

-- handleCrash
unfoldable pub handle_crash : String → ℤ → Option (List String) → Manager → Manager
unfolding get_server update_server_status record_exit next crash_reason last_200 lookup erase
handle_crash id code log m = crash_found id code (log_reason log) m (get_server id m.db)

abbrev pub exit_noted : Monitor → WaitResult → Manager → Manager
exit_noted mon result m = record m {
  exit_descriptions =
      insert mon.id (exit_description result (exit_code_of result)) m.exit_descriptions;
  collecting = erase mon.id m.collecting;
  processes = erase mon.id m.processes;
}

-- What monitorProcess does once its process has exited.
unfoldable pub process_exited : Monitor → WaitResult → Option (List String) → Manager → Manager
unfolding exit_code_of exit_description insert erase set_resting reset handle_crash
process_exited mon result log m =
    let code = exit_code_of result in
    let noted = exit_noted mon result m in
    let rested = set_resting mon.id noted in
    let cleared = reset mon.id noted.attempts in
    if has_handle mon.handle m.stop_requested
    then record rested { attempts = cleared }
    else if leb stable_uptime (m.now - mon.started_at)
    then handle_crash mon.id code log (record noted { attempts = cleared })
    else handle_crash mon.id code log noted

abbrev pub is_crashed : Status → Bool
is_crashed crashed = true
is_crashed _ = false

abbrev pub restart_found : World → Launch → String → Manager → Option Server → Manager
restart_found w l id m none = m
restart_found w l id m (some s) = if is_crashed s.status then (start_server w l id m).1 else m

-- The goroutine of handleCrash, behind its delay.
unfoldable pub delayed_restart : World → Launch → String → Manager → Manager
unfolding get_server start_server
delayed_restart w l id m = restart_found w l id m (get_server id m.db)
