-- ===== src/Server/Sleep/Wake.antt =====
-- wake, isAwake and SetAutoSleep of backend/server/sleep.go.
use realmrunner.Common.{ℕ, String, Bool, true, false, not, Option, none, some}
use realmrunner.Common.{◌==◌, if◌then◌else◌}
use realmrunner.Common.Int.{ℤ, is_pos}
use realmrunner.Common.Assoc.{lookup}
use realmrunner.Server.Store.{
  Status, stopped, starting, running, stopping, is_running, Server, get_server,
  update_server_status, set_auto_sleep,
}
use realmrunner.Server.Manager.State.{
  World, Launch, Manager, Outcome, with_db, derived_internal_port, not_found, must_be_stopped,
}
use realmrunner.Server.Manager.Start.{Control, listen, refused, ensure_control_config, start_server}
use realmrunner.Server.Sleep.Proxy.{
  default_idle_timeout_min, is_sleeping, ensure_sleep_proxy, stop_sleep_proxy,
  set_sleeping_if_stopped,
}

abbrev pub is_up : Status → Bool
is_up running = true
is_up starting = true
is_up _ = false

abbrev pub wake_found : World → Launch → String → Manager → Option Server → Outcome
wake_found w l id m none = (some not_found, m)
wake_found w l id m (some s) = if is_up s.status then (none, m) else start_server w l id m

-- wake
unfoldable pub wake : World → Launch → String → Manager → Outcome
unfolding get_server start_server
wake w l id m = wake_found w l id m (get_server id m.db)

abbrev pub has_entry : Option ℕ → Bool
has_entry none = false
has_entry (some h) = true

abbrev pub awake_found : String → Manager → Option Server → Bool
awake_found id m none = false
awake_found id m (some s) =
    if not (is_running s.status) then false else has_entry (lookup id m.processes)

-- isAwake
unfoldable pub is_awake : String → Manager → Bool
unfolding get_server lookup
is_awake id m = awake_found id m (get_server id m.db)

abbrev pub is_busy : Status → Bool
is_busy running = true
is_busy starting = true
is_busy stopping = true
is_busy _ = false

-- The error of ensureControlConfig is what SetAutoSleep returns.
abbrev pub control_outcome : Control × Manager → Outcome
control_outcome (listen port, m) = (none, m)
control_outcome (refused f, m) = (some f, m)

abbrev pub disable_auto_sleep : Launch → Server → Manager → Outcome
disable_auto_sleep l s m =
    let closed = stop_sleep_proxy s.id m in
    let settled =
      if is_sleeping s.status
      then with_db closed (update_server_status s.id stopped closed.db)
      else closed in
    control_outcome (ensure_control_config l s settled)

-- `ensureSleepProxy` writes the internal port that it derives into the server that it is given.
abbrev pub with_internal_port : Server → Server
with_internal_port s =
    let derived = derived_internal_port s.port in
    if s.internal_port == 0 then record s { internal_port = derived } else s

abbrev pub known_after_proxy : Manager → Server → Server
known_after_proxy m s = elim (lookup s.id m.proxies) [
  | none ↦ with_internal_port s
  | some ports ↦ s
]

abbrev pub proxy_enabled : Launch → Server → Server → ℤ → Outcome → Outcome
proxy_enabled l s known timeout (some f, m) =
    (some f, with_db m (set_auto_sleep s.id false timeout m.db))
proxy_enabled l s known timeout (none, m) =
    control_outcome (ensure_control_config l known (set_sleeping_if_stopped s m))

abbrev pub change_found : Bool → Launch → String → Bool → ℤ → Manager → Option Server → Outcome
change_found bound l id enabled minutes m none = (some not_found, m)
change_found bound l id enabled minutes m (some s) =
    let timeout = if is_pos minutes then minutes else default_idle_timeout_min in
    let stored = with_db m (set_auto_sleep id enabled timeout m.db) in
    let s' = record s { auto_sleep = enabled; idle_timeout_min = timeout } in
    let on =
      proxy_enabled l s' (known_after_proxy stored s') timeout
        (ensure_sleep_proxy bound s' stored) in
    if is_busy s.status
    then (some must_be_stopped, m)
    else if not enabled
    then disable_auto_sleep l s' stored
    else on

-- SetAutoSleep of the manager
unfoldable pub change_auto_sleep : Bool → Launch → String → Bool → ℤ → Manager → Outcome
unfolding get_server set_auto_sleep stop_sleep_proxy update_server_status ensure_control_config
    ensure_sleep_proxy lookup
change_auto_sleep bound l id enabled minutes m =
    change_found bound l id enabled minutes m (get_server id m.db)
