-- ===== src/Server/Steps/Sleeping.antt =====
-- The operations of backend/server/sleep.go that the manager's steps run, on a table predicate that
-- the statements of backend/server/db.go keep.
use realmrunner.Common.{
  ℕ, refl, inl, inr, String, Bool, true, false, ◌||◌, not, Option, none, some, List, [], ◌∷◌,
}
use realmrunner.Common.{◌==◌, ltb, leb, if◌then◌else◌, Bool-cases}
use realmrunner.Common.Int.{ℤ, is_pos}
use realmrunner.Server.Store.{Server, Db, stopped, sleeping, is_running, get_server, set_auto_sleep}
use realmrunner.Server.Manager.State.{Launch, Manager, Outcome, with_db}
use realmrunner.Server.Manager.Start.{Control}
use realmrunner.Server.Manager.Stop.{stop_server}
use realmrunner.Server.Sleep.Proxy.{
  is_stopped, is_sleeping, open_proxy, proxy_found, ensure_sleep_proxy, stop_sleep_proxy,
  set_sleeping_if_stopped, proxy_started, start_sleep_proxies, default_idle_timeout_min,
}
use realmrunner.Server.Sleep.Wake.{
  is_busy, control_outcome, disable_auto_sleep, known_after_proxy, proxy_enabled, change_found,
  change_auto_sleep,
}
use realmrunner.Server.Sleep.Idle.{
  marked, mark_idle, clear_idle, sleep_stopped, sleep_found, sleep, idle_timeout, idle_for, asked,
  check_idle, check_idle_servers, restart_setting_found, change_auto_restart,
}
use realmrunner.Server.Steps.Closure.{
  Updated, status-closed, internal_port-closed, auto_sleep-closed, auto_restart-closed,
}
use realmrunner.Server.Steps.Starting.{ensure_control_config-keeps}
use realmrunner.Server.Steps.Keeping.{stop_server-keeps}

module _ {P : Db → Type 0} (c : Updated P) where
  open_proxy-keeps :
      (bound : Bool) (s : Server) (port : ℕ) (m : Manager)
      → P m.db
      → P (open_proxy bound s port m).1.db
  open_proxy-keeps true s port m p = p
  open_proxy-keeps false s port m p = p

  proxy_found-keeps :
      (bound : Bool) (s : Server) (m : Manager) (found : Option (ℕ × ℕ))
      → P m.db
      → P (proxy_found bound s m found).1.db
  proxy_found-keeps bound s m (some ports) p = p
  proxy_found-keeps bound s m none p = elim (Bool-cases (s.internal_port == 0)) [
    | inl e ↦ rw e (open_proxy-keeps bound s _ _ (internal_port-closed c s.id _ m.db p))
    | inr e ↦ rw e (open_proxy-keeps bound s _ m p)
  ]

  pub ensure_sleep_proxy-keeps :
      (bound : Bool) (s : Server) (m : Manager) → P m.db → P (ensure_sleep_proxy bound s m).1.db
  unfolding ensure_sleep_proxy
  ensure_sleep_proxy-keeps bound s m = proxy_found-keeps bound s m _

  set_sleeping_if_stopped-keeps :
      (s : Server) (m : Manager) → P m.db → P (set_sleeping_if_stopped s m).db
  set_sleeping_if_stopped-keeps s m p = elim (Bool-cases (is_stopped s.status)) [
    | inl e ↦ rw e (status-closed c s.id sleeping m.db refl p)
    | inr e ↦ rw e p
  ]

  proxy_started-keeps : (s : Server) (o : Outcome) → P o.1.db → P (proxy_started s o).db
  proxy_started-keeps s (none, m) p = set_sleeping_if_stopped-keeps s m p
  proxy_started-keeps s (some f, m) p = p

  pub start_sleep_proxies-keeps :
      (bound : String → Bool) (servers : List Server) (m : Manager)
      → P m.db
      → P (start_sleep_proxies bound servers m).db
  unfolding start_sleep_proxies
  start_sleep_proxies-keeps bound [] m p = p
  start_sleep_proxies-keeps bound (s ∷ servers) m p = elim (Bool-cases s.auto_sleep) [
    | inl e ↦ rw e (
        start_sleep_proxies-keeps bound servers _ (
          proxy_started-keeps s (ensure_sleep_proxy (bound s.id) s m)
            (ensure_sleep_proxy-keeps (bound s.id) s m p)))
    | inr e ↦ rw e (start_sleep_proxies-keeps bound servers m p)
  ]

  control_outcome-keeps : (a : Control × Manager) → P a.1.db → P (control_outcome a).1.db
  control_outcome-keeps (Control.listen port, m) p = p
  control_outcome-keeps (Control.refused f, m) p = p

  disable_auto_sleep-keeps :
      (l : Launch) (s : Server) (m : Manager) → P m.db → P (disable_auto_sleep l s m).1.db
  unfolding stop_sleep_proxy
  disable_auto_sleep-keeps l s m p = elim (Bool-cases (is_sleeping s.status)) [
    | inl e ↦ rw e (
        control_outcome-keeps _
          (ensure_control_config-keeps c l s _ (status-closed c s.id stopped m.db refl p)))
    | inr e ↦ rw e (control_outcome-keeps _ (ensure_control_config-keeps c l s _ p))
  ]

  proxy_enabled-keeps :
      (l : Launch) (s known : Server) (timeout : ℤ) (o : Outcome)
      → P o.1.db
      → P (proxy_enabled l s known timeout o).1.db
  proxy_enabled-keeps l s known timeout (some f, m) p =
      auto_sleep-closed c s.id false timeout m.db p
  proxy_enabled-keeps l s known timeout (none, m) p =
      control_outcome-keeps _
        (ensure_control_config-keeps c l known _ (set_sleeping_if_stopped-keeps s m p))

  change_found-keeps :
      (bound : Bool) (l : Launch) (id : String) (enabled : Bool) (minutes : ℤ) (m : Manager)
      (s : Option Server)
      → P m.db
      → P (change_found bound l id enabled minutes m s).1.db
  change_found-keeps bound l id enabled minutes m none p = p
  change_found-keeps bound l id false minutes m (some s) p = elim (Bool-cases (is_busy s.status)) [
    | inl e ↦ rw e p
    | inr e ↦ rw e (disable_auto_sleep-keeps l _ _ (auto_sleep-closed c id false _ m.db p))
  ]
  change_found-keeps bound l id true minutes m (some s) p = elim (Bool-cases (is_busy s.status)) [
    | inl e ↦ rw e p
    | inr e ↦
        let timeout = if is_pos minutes then minutes else default_idle_timeout_min in
        let known = record s { auto_sleep = true; idle_timeout_min = timeout } in
        let stored = with_db m (set_auto_sleep id true timeout m.db) in
        let kept = auto_sleep-closed c id true timeout m.db p in
        rw e (
          proxy_enabled-keeps l known (known_after_proxy stored known) timeout
            (ensure_sleep_proxy bound known stored)
            (ensure_sleep_proxy-keeps bound known stored kept))
  ]

  pub change_auto_sleep-keeps :
      (bound : Bool) (l : Launch) (id : String) (enabled : Bool) (minutes : ℤ) (m : Manager)
      → P m.db
      → P (change_auto_sleep bound l id enabled minutes m).1.db
  unfolding change_auto_sleep
  change_auto_sleep-keeps bound l id enabled minutes m =
      change_found-keeps bound l id enabled minutes m (get_server id m.db)

  sleep_stopped-keeps : (id : String) (o : Outcome) → P o.1.db → P (sleep_stopped id o).1.db
  sleep_stopped-keeps id (some f, m) p = p
  sleep_stopped-keeps id (none, m) p = status-closed c id sleeping m.db refl p

  sleep_found-keeps :
      (id : String) (m : Manager) (s : Option Server) → P m.db → P (sleep_found id m s).1.db
  sleep_found-keeps id m none p = p
  sleep_found-keeps id m (some s) p = elim (Bool-cases s.auto_sleep) [
    | inl e ↦ rw e (sleep_stopped-keeps id (stop_server id m) (stop_server-keeps c id m p))
    | inr e ↦ rw e p
  ]

  pub sleep-keeps : (id : String) (m : Manager) → P m.db → P (sleep id m).1.db
  unfolding sleep
  sleep-keeps id m = sleep_found-keeps id m (get_server id m.db)

  mark_idle-keeps : (id : String) (m : Manager) (t : Option ℕ) → P m.db → P (marked id m t).1.db
  mark_idle-keeps id m none p = p
  mark_idle-keeps id m (some t) p = p

  idle_for-keeps : (s : Server) (a : ℕ × Manager) → P a.1.db → P (idle_for s a).db
  unfolding clear_idle
  idle_for-keeps s (time, m) p = elim (Bool-cases (leb (idle_timeout s) time)) [
    | inl e ↦ rw e (sleep-keeps s.id m p)
    | inr e ↦ rw e p
  ]

  asked-keeps : (s : Server) (m : Manager) (players : Option ℕ) → P m.db → P (asked s m players).db
  unfolding clear_idle mark_idle
  asked-keeps s m none p = p
  asked-keeps s m (some n) p = elim (Bool-cases (ltb 0 n)) [
    | inl e ↦ rw e p
    | inr e ↦ rw e (idle_for-keeps s (mark_idle s.id m) (mark_idle-keeps s.id m _ p))
  ]

  check_idle-keeps :
      (players : Option ℕ) (s : Server) (m : Manager) → P m.db → P (check_idle players s m).db
  unfolding check_idle clear_idle
  check_idle-keeps players s m p =
      elim (Bool-cases (not s.auto_sleep || not (is_running s.status))) [
        | inl e ↦ rw e p
        | inr e ↦ rw e (asked-keeps s m players p)
      ]

  pub check_idle_servers-keeps :
      (players : String → Option ℕ) (servers : List Server) (m : Manager)
      → P m.db
      → P (check_idle_servers players servers m).db
  unfolding check_idle_servers
  check_idle_servers-keeps players [] m p = p
  check_idle_servers-keeps players (s ∷ servers) m p =
      check_idle_servers-keeps players servers _ (check_idle-keeps (players s.id) s m p)

  restart_setting_found-keeps :
      (id : String) (enabled : Bool) (m : Manager) (s : Option Server)
      → P m.db
      → P (restart_setting_found id enabled m s).1.db
  restart_setting_found-keeps id enabled m none p = p
  restart_setting_found-keeps id enabled m (some s) p = auto_restart-closed c id enabled m.db p

  pub change_auto_restart-keeps :
      (id : String) (enabled : Bool) (m : Manager)
      → P m.db
      → P (change_auto_restart id enabled m).1.db
  unfolding change_auto_restart
  change_auto_restart-keeps id enabled m =
      restart_setting_found-keeps id enabled m (get_server id m.db)
