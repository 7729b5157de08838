-- ===== src/Server/Manager/Start.antt =====
-- StartServer of backend/server/manager.go, and ensureControlConfig of backend/server/control.go.
use realmrunner.Common.{ℕ, ◌+◌, String, Bool, ◌||◌, Option, none, some}
use realmrunner.Common.{◌∷◌, leb, ◌==◌, if◌then◌else◌, str_eq}
use realmrunner.Common.Int.{pos, is_pos, pos_part}
use realmrunner.Common.Assoc.{insert}
use realmrunner.Server.Store.{
  starting, running, is_running, Reason, Server, get_server, count_running, update_server_status,
  update_server_last_started, set_rcon_credentials, set_internal_port, record_exit,
  clear_last_error,
}
use realmrunner.Server.Crash.{preflight_java}
use realmrunner.Server.Manager.State.{
  World, Launch, Manager, Outcome, with_db, set_resting, derived_rcon_port, derived_internal_port,
  Fault, not_found, limit_reached, already_running, java_missing, no_entropy, properties_failed,
  spawn_failed,
}

-- ensureControlConfig: the port to listen on and the server as it is then known, or a refusal.
pub data Control : Type 0 where
  listen : ℕ → Control
  refused : Fault → Control

abbrev pub listen_port_of : Server → ℕ
listen_port_of s = if s.auto_sleep then s.internal_port else s.port

abbrev pub write_properties : Launch → Server → Manager → Control × Manager
write_properties l s m =
    (if l.properties_written then listen (listen_port_of s) else refused properties_failed, m)

unfoldable pub provision_internal_port : Launch → Server → Manager → Control × Manager
unfolding set_internal_port
provision_internal_port l s m =
    let derived = derived_internal_port s.port in
    if s.internal_port == 0
    then write_properties l (record s { internal_port = derived })
        (with_db m (set_internal_port s.id derived m.db))
    else write_properties l s m

abbrev pub with_credentials : Launch → Server → Manager → Option String → Control × Manager
with_credentials l s m none = (refused no_entropy, m)
with_credentials l s m (some password) =
    let port = derived_rcon_port s.port in
    provision_internal_port l (record s { rcon_port = port; rcon_password = password })
      (with_db m (set_rcon_credentials s.id port password m.db))

unfoldable pub ensure_control_config : Launch → Server → Manager → Control × Manager
unfolding provision_internal_port set_rcon_credentials
ensure_control_config l s m =
    if s.rcon_port == 0 || str_eq s.rcon_password ""
    then with_credentials l s m l.password
    else provision_internal_port l s m

-- heapFor
unfoldable pub heap_for : World → Server → ℕ
heap_for w s = if is_pos s.heap_mb then pos_part s.heap_mb else w.memory_mb

-- The end of StartServer, from the new process on.
unfoldable pub adopt_process : Server → ℕ → ℕ → ℕ → Manager → Manager
unfolding insert update_server_status update_server_last_started clear_last_error
adopt_process s heap port pid m = record m {
  processes = insert s.id m.next_handle m.processes;
  next_handle = m.next_handle + 1;
  monitors =
      (record {
        id = s.id;
        handle = m.next_handle;
        started_at = m.now;
        listen_port = port;
        heap_mb = heap;
      })
      ∷ m.monitors;
  collecting = insert s.id (pid, s.port) m.collecting;
  db =
      clear_last_error s.id
        (update_server_last_started s.id m.now (update_server_status s.id running m.db));
}

abbrev pub spawn : Server → ℕ → ℕ → Option ℕ → Manager → Outcome
spawn s heap port none m = (some spawn_failed, set_resting s.id m)
spawn s heap port (some pid) m = (none, adopt_process s heap port pid m)

abbrev pub configured : Launch → Server → ℕ → Control × Manager → Outcome
configured l s heap (refused f, m) = (some f, set_resting s.id m)
configured l s heap (listen port, m) = spawn s heap port l.pid m

abbrev pub preflighted : Launch → Server → ℕ → Manager → Option Reason → Outcome
preflighted l s heap m (some reason) =
    let rested = set_resting s.id m in
    (some (java_missing reason), with_db rested (record_exit s.id (pos 0) reason rested.db))
preflighted l s heap m none = configured l s heap (ensure_control_config l s m)

abbrev pub begin_start : World → Launch → String → Manager → Option Server → Outcome
begin_start w l id m none = (some not_found, m)
begin_start w l id m (some s) =
    if is_running s.status
    then (some already_running, m)
    else preflighted l s (heap_for w s) (with_db m (update_server_status id starting m.db))
        (preflight_java w.java_overrides w.runtimes s.version)

-- Whether the running limit is reached.
abbrev pub is_full : World → Manager → Bool
is_full w m = leb w.max_running (count_running m.db)

-- StartServer
unfoldable pub start_server : World → Launch → String → Manager → Outcome
unfolding get_server count_running update_server_status preflight_java set_resting record_exit
    ensure_control_config adopt_process
start_server w l id m =
    if is_full w m then (some limit_reached, m) else begin_start w l id m (get_server id m.db)
