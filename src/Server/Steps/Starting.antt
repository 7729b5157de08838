-- ===== src/Server/Steps/Starting.antt =====
-- StartServer of backend/server/manager.go, the one operation that makes a server running, and its
-- preparation: from a table on which `P` holds and that has room, a table on which `P` holds.
use realmrunner.Common.{ℕ, ◌≡◌, refl, inl, inr, String, false, ◌||◌, Option, none, some}
use realmrunner.Common.{leb, ◌==◌, str_eq, Bool-cases}
use realmrunner.Common.Int.{pos}
use realmrunner.Server.Store.{
  Server, Db, Reason, is_running, starting, running, get_server, count_running,
  update_server_status,
}
use realmrunner.Server.Manager.State.{World, Launch, Manager, set_resting}
use realmrunner.Server.Manager.Start.{
  Control, listen, refused, provision_internal_port, with_credentials, ensure_control_config,
  adopt_process, spawn, configured, heap_for, preflighted, begin_start, start_server,
}
use realmrunner.Server.Steps.Phases.{controlled, checked, prepare}
use realmrunner.Server.Steps.Closure.{
  Updated, status-closed, last_started-closed, credentials-closed, internal_port-closed,
  record_exit-closed, clear_last_error-closed, set_resting-closed,
}

module _ {P : Db → Type 0} (c : Updated P) (l : Launch) where
  provision_internal_port-keeps :
      (s : Server) (m : Manager) → P m.db → P (provision_internal_port l s m).1.db
  unfolding provision_internal_port
  provision_internal_port-keeps s m p = elim (Bool-cases (s.internal_port == 0)) [
    | inl e ↦ rw e (internal_port-closed c s.id _ m.db p)
    | inr e ↦ rw e p
  ]

  with_credentials-keeps :
      (s : Server) (m : Manager) (password : Option String)
      → P m.db
      → P (with_credentials l s m password).1.db
  with_credentials-keeps s m none p = p
  with_credentials-keeps s m (some password) p =
      provision_internal_port-keeps _ _ (credentials-closed c s.id _ password m.db p)

  pub ensure_control_config-keeps :
      (s : Server) (m : Manager) → P m.db → P (ensure_control_config l s m).1.db
  unfolding ensure_control_config
  ensure_control_config-keeps s m p =
      elim (Bool-cases (s.rcon_port == 0 || str_eq s.rcon_password "")) [
        | inl e ↦ rw e (with_credentials-keeps s m l.password p)
        | inr e ↦ rw e (provision_internal_port-keeps s m p)
      ]

  controlled-keeps :
      (s : Server) (heap : ℕ) (a : Control × Manager) → P a.1.db → P (controlled s heap a).1.db
  controlled-keeps s heap (refused f, m) p = set_resting-closed c s.id m p
  controlled-keeps s heap (listen port, m) p = p

  checked-keeps :
      (s : Server) (heap : ℕ) (m : Manager) (reason : Option Reason)
      → P m.db
      → P (checked l s heap m reason).1.db
  checked-keeps s heap m (some reason) p =
      record_exit-closed c s.id (pos 0) reason _ (set_resting-closed c s.id m p)
  checked-keeps s heap m none p =
      controlled-keeps s heap (ensure_control_config l s m) (ensure_control_config-keeps s m p)

  pub prepare-keeps :
      (w : World) (id : String) (s : Server) (m : Manager) → P m.db → P (prepare w l id s m).1.db
  unfolding prepare
  prepare-keeps w id s m p =
      checked-keeps s (heap_for w s) _ _ (status-closed c id starting m.db refl p)

-- `Q` is `P` with room for one more running server.
pub record Room (w : World) (P Q : Db → Type 0) : Type 0 where
  pub p_closed : Updated P
  pub q_closed : Updated Q
  pub weaken : (db : Db) → Q db → P db
  pub room : (db : Db) → leb w.max_running (count_running db) ≡ false → P db → Q db
  pub run : (id : String) (db : Db) → Q db → P (update_server_status id running db)

module _ {w : World} {P Q : Db → Type 0} (r : Room w P Q) (l : Launch) where
  adopt_process-keeps :
      (s : Server) (heap port pid : ℕ) (m : Manager)
      → Q m.db
      → P (adopt_process s heap port pid m).db
  unfolding adopt_process
  adopt_process-keeps s heap port pid m q =
      clear_last_error-closed r.p_closed s.id _
        (last_started-closed r.p_closed s.id m.now _ (r.run s.id m.db q))

  spawn-keeps :
      (s : Server) (heap port : ℕ) (pid : Option ℕ) (m : Manager)
      → Q m.db
      → P (spawn s heap port pid m).1.db
  unfolding set_resting
  spawn-keeps s heap port none m q = set_resting-closed r.p_closed s.id m (r.weaken m.db q)
  spawn-keeps s heap port (some pid) m q = adopt_process-keeps s heap port pid m q

  configured-keeps :
      (s : Server) (heap : ℕ) (a : Control × Manager) → Q a.1.db → P (configured l s heap a).1.db
  configured-keeps s heap (refused f, m) q = set_resting-closed r.p_closed s.id m (r.weaken m.db q)
  configured-keeps s heap (listen port, m) q = spawn-keeps s heap port l.pid m q

  preflighted-keeps :
      (s : Server) (heap : ℕ) (m : Manager) (reason : Option Reason)
      → Q m.db
      → P (preflighted l s heap m reason).1.db
  preflighted-keeps s heap m none q =
      configured-keeps s heap (ensure_control_config l s m)
        (ensure_control_config-keeps r.q_closed l s m q)
  preflighted-keeps s heap m (some reason) q =
      record_exit-closed r.p_closed s.id (pos 0) reason _
        (set_resting-closed r.p_closed s.id m (r.weaken m.db q))

  begin_start-keeps :
      (id : String) (m : Manager) (s : Option Server)
      → P m.db
      → Q m.db
      → P (begin_start w l id m s).1.db
  begin_start-keeps id m none p q = p
  begin_start-keeps id m (some s) p q = elim (Bool-cases (is_running s.status)) [
    | inl e ↦ rw e p
    | inr e ↦
        rw e (
          preflighted-keeps s (heap_for w s) _ _ (status-closed r.q_closed id starting m.db refl q))
  ]

  pub start_server-keeps : (id : String) (m : Manager) → P m.db → P (start_server w l id m).1.db
  unfolding start_server
  start_server-keeps id m p = elim (Bool-cases (leb w.max_running (count_running m.db))) [
    | inl e ↦ rw e p
    | inr e ↦ rw e (begin_start-keeps id m (get_server id m.db) p (r.room m.db e p))
  ]
