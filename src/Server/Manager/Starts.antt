-- ===== src/Server/Manager/Starts.antt =====
-- StartServer of backend/server/manager.go: what holds after a start that succeeds.
use realmrunner.Common.{ℕ, ◌<◌, ◌≡◌, ◌∙◌, refl, inl, inr, String, ◌||◌, Option, none, some, arith}
use realmrunner.Common.{◌==◌, leb, str_eq, str_eq_refl, Bool-cases}
use realmrunner.Common.Assoc.{lookup, lookup-insert}
use realmrunner.Server.Store.{
  starting, running, Reason, Server, is_running, get_server, count_running, update_server_status,
  set_rcon_credentials, update_server_last_started,
}
use realmrunner.Server.Store.Columns.{
  get_server-id, status_of, status_of-set, status_of-credentials, status_of-internal_port,
  status_of-last_started, status_of-clear_last_error,
}
use realmrunner.Server.Crash.{preflight_java}
use realmrunner.Server.Manager.State.{
  World, Launch, Manager, with_db, derived_internal_port, derived_rcon_port,
}
use realmrunner.Server.Manager.Start.{
  Control, listen, refused, provision_internal_port, with_credentials, ensure_control_config,
  adopt_process, spawn, configured, heap_for, preflighted, begin_start, start_server,
}

module _ (l : Launch) (j : String) where
  provision_internal_port-status :
      (s : Server) (m : Manager)
      → status_of j (provision_internal_port l s m).1.db ≡ status_of j m.db
  unfolding provision_internal_port
  provision_internal_port-status s m = elim (Bool-cases (s.internal_port == 0)) [
    | inl e ↦ rw e (status_of-internal_port s.id (derived_internal_port s.port) j m.db)
    | inr e ↦ rw e refl
  ]

  with_credentials-status :
      (s : Server) (m : Manager) (p : Option String)
      → status_of j (with_credentials l s m p).1.db ≡ status_of j m.db
  with_credentials-status s m none = refl
  with_credentials-status s m (some p) =
      let port = derived_rcon_port s.port in
      provision_internal_port-status (record s { rcon_port = port; rcon_password = p })
        (with_db m (set_rcon_credentials s.id port p m.db))
      ∙ status_of-credentials s.id port p j m.db

  pub ensure_control_config-status :
      (s : Server) (m : Manager) → status_of j (ensure_control_config l s m).1.db ≡ status_of j m.db
  unfolding ensure_control_config
  ensure_control_config-status s m =
      elim (Bool-cases (s.rcon_port == 0 || str_eq s.rcon_password "")) [
        | inl e ↦ rw e (with_credentials-status s m l.password)
        | inr e ↦ rw e (provision_internal_port-status s m)
      ]

-- A started server: it is running, and it has a process.
abbrev pub IsUp : String → Manager → Type 0
IsUp id m = (status_of id m.db ≡ some running) × (h : ℕ) × (lookup id m.processes ≡ some h)

renamed-IsUp : (j k : String) (m : Manager) → j ≡ k → IsUp j m → IsUp k m
renamed-IsUp j k m e up = rw e at up

adopt_process-IsUp :
    (s : Server) (heap port pid : ℕ) (m : Manager)
    → status_of s.id m.db ≡ some starting
    → IsUp s.id (adopt_process s heap port pid m)
unfolding adopt_process
adopt_process-IsUp s heap port pid m e = (
  status_of-clear_last_error s.id s.id
        (update_server_last_started s.id m.now (update_server_status s.id running m.db))
      ∙ status_of-last_started s.id m.now s.id (update_server_status s.id running m.db)
      ∙ status_of-set s.id running m.db starting e,
  m.next_handle,
  rw (lookup-insert, str_eq_refl) refl,
)

spawn-IsUp :
    (s : Server) (heap port : ℕ) (pid : Option ℕ) (m : Manager)
    → status_of s.id m.db ≡ some starting
    → (spawn s heap port pid m).0 ≡ none
    → IsUp s.id (spawn s heap port pid m).1
spawn-IsUp s heap port none m e ok = absurd (ground (arith, ok))
spawn-IsUp s heap port (some pid) m e ok = adopt_process-IsUp s heap port pid m e

configured-IsUp :
    (l : Launch) (s : Server) (heap : ℕ) (a : Control × Manager)
    → status_of s.id a.1.db ≡ some starting
    → (configured l s heap a).0 ≡ none
    → IsUp s.id (configured l s heap a).1
configured-IsUp l s heap (refused f, m) e ok = absurd (ground (arith, ok))
configured-IsUp l s heap (listen port, m) e ok = spawn-IsUp s heap port l.pid m e ok

preflighted-IsUp :
    (l : Launch) (s : Server) (heap : ℕ) (m : Manager) (r : Option Reason)
    → status_of s.id m.db ≡ some starting
    → (preflighted l s heap m r).0 ≡ none
    → IsUp s.id (preflighted l s heap m r).1
preflighted-IsUp l s heap m (some r) e ok = absurd (ground (arith, ok))
preflighted-IsUp l s heap m none e ok =
    configured-IsUp l s heap (ensure_control_config l s m)
      (ensure_control_config-status l s.id s m ∙ e) ok

begin_start-IsUp :
    (w : World) (l : Launch) (id : String) (m : Manager) (found : Option Server)
    → get_server id m.db ≡ found
    → (begin_start w l id m found).0 ≡ none
    → IsUp id (begin_start w l id m found).1
begin_start-IsUp w l id m none e ok = absurd (ground (arith, ok))
begin_start-IsUp w l id m (some s) e ok =
    let known : status_of id m.db ≡ some s.status = rw e refl in
    let named = get_server-id id m.db s e in
    let begun = with_db m (update_server_status id starting m.db) in
    let marked : status_of s.id begun.db ≡ some starting =
      rw named (status_of-set id starting m.db s.status known) in
    elim (Bool-cases (is_running s.status)) [
      | inl r ↦ absurd (ground (arith, r, ok))
      | inr r ↦
          let reason = preflight_java w.java_overrides w.runtimes s.version in
          let up = preflighted-IsUp l s (heap_for w s) begun reason marked (rw r at ok) in
          rw r (renamed-IsUp s.id id (preflighted l s (heap_for w s) begun reason).1 named up)
    ]

-- A start that reports success had room under the running limit, and leaves its server running with
-- a process.
pub start_server-IsUp :
    (w : World) (l : Launch) (id : String) (m : Manager)
    → (start_server w l id m).0 ≡ none
    → (count_running m.db < w.max_running) × IsUp id (start_server w l id m).1
unfolding start_server
start_server-IsUp w l id m ok = elim (Bool-cases (leb w.max_running (count_running m.db))) [
  | inl h ↦ absurd (ground (arith, h, ok))
  | inr h ↦
      rw h (ground (arith, h), begin_start-IsUp w l id m (get_server id m.db) refl (rw h at ok))
]
