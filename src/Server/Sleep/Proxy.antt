-- ===== src/Server/Sleep/Proxy.antt =====
-- The sleep proxies of backend/server/sleep.go as the manager holds them, each the pair of its
-- ports, and what happens when the program starts. Whether a public port can be bound is an argument.
use realmrunner.Common.{ℕ, String, Bool, true, false, Option, none, some}
use realmrunner.Common.{List, [], ◌∷◌, ◌==◌, if◌then◌else◌}
use realmrunner.Common.Int.{ℤ, pos}
use realmrunner.Common.Assoc.{lookup, insert, erase}
use realmrunner.Server.Store.{
  Status, stopped, starting, running, stopping, sleeping, Server, Db, update_server_status,
  set_internal_port,
}
use realmrunner.Server.Manager.State.{
  Manager, Outcome, with_db, derived_internal_port, proxy_failed,
}

abbrev pub default_idle_timeout_min : ℤ
default_idle_timeout_min = pos 15

abbrev pub is_stopped : Status → Bool
is_stopped stopped = true
is_stopped _ = false

abbrev pub is_sleeping : Status → Bool
is_sleeping sleeping = true
is_sleeping _ = false

-- The part of ensureSleepProxy behind the port: a proxy that cannot bind is not kept.
abbrev pub open_proxy : Bool → Server → ℕ → Manager → Outcome
open_proxy bound s internal m =
    if bound
    then (none, record m { proxies = insert s.id (s.port, internal) m.proxies })
    else (some proxy_failed, m)

abbrev pub proxy_found : Bool → Server → Manager → Option (ℕ × ℕ) → Outcome
proxy_found bound s m (some ports) = (none, m)
proxy_found bound s m none =
    let derived = derived_internal_port s.port in
    if s.internal_port == 0
    then open_proxy bound s derived (with_db m (set_internal_port s.id derived m.db))
    else open_proxy bound s s.internal_port m

unfoldable pub ensure_sleep_proxy : Bool → Server → Manager → Outcome
unfolding lookup insert set_internal_port
ensure_sleep_proxy bound s m = proxy_found bound s m (lookup s.id m.proxies)

unfoldable pub stop_sleep_proxy : String → Manager → Manager
unfolding erase
stop_sleep_proxy id m = record m { proxies = erase id m.proxies }

-- Shutdown closes every proxy.
unfoldable pub shutdown : Manager → Manager
shutdown m = record m { proxies = [] }

abbrev pub set_sleeping_if_stopped : Server → Manager → Manager
set_sleeping_if_stopped s m =
    if is_stopped s.status then with_db m (update_server_status s.id sleeping m.db) else m

abbrev pub proxy_started : Server → Outcome → Manager
proxy_started s (none, m) = set_sleeping_if_stopped s m
proxy_started s (some f, m) = m

-- StartSleepProxies, with whether the port of each server could be bound.
unfoldable pub start_sleep_proxies : (String → Bool) → List Server → Manager → Manager
unfolding ensure_sleep_proxy update_server_status
start_sleep_proxies bound [] m = m
start_sleep_proxies bound (s ∷ servers) m =
    start_sleep_proxies bound servers
      (if s.auto_sleep then proxy_started s (ensure_sleep_proxy (bound s.id) s m) else m)

-- cleanupOrphanedStatuses
abbrev pub orphaned_to_stopped : Status → Status
orphaned_to_stopped running = stopped
orphaned_to_stopped starting = stopped
orphaned_to_stopped stopping = stopped
orphaned_to_stopped s = s

unfoldable pub cleanup_orphaned_statuses : Db → Db
cleanup_orphaned_statuses [] = []
cleanup_orphaned_statuses (s ∷ db) =
    record s { status = orphaned_to_stopped s.status } ∷ cleanup_orphaned_statuses db

-- NewManager over the table that the last run left.
unfoldable pub boot : Db → ℕ → Manager
unfolding cleanup_orphaned_statuses
boot db now = record {
  db = cleanup_orphaned_statuses db;
  processes = [];
  next_handle = 0;
  stop_requested = [];
  monitors = [];
  collecting = [];
  attempts = [];
  exit_descriptions = [];
  proxies = [];
  sleep_states = [];
  restarts_due = [];
  now = now;
}
