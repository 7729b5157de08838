-- ===== src/Server/Manager/Failures.antt =====
-- StartServer of backend/server/manager.go where it fails.
use realmrunner.Common.{ℕ, ◌≡◌, ◌∙◌, ◌⊎◌, refl, inl, inr, String, Option, none, some, arith}
use realmrunner.Common.{leb, Bool-cases, Option-cases}
use realmrunner.Common.Int.{pos}
use realmrunner.Server.Store.{
  Status, starting, stopped, sleeping, Reason, Server, is_running, get_server, count_running,
  update_server_status,
}
use realmrunner.Server.Store.Columns.{
  get_server-id, status_of, status_of-set, status_of-record_exit,
}
use realmrunner.Server.Manager.Stopping.{set_resting-found}
use realmrunner.Server.Crash.{preflight_java}
use realmrunner.Server.Manager.State.{World, Launch, Manager, with_db, Fault, set_resting}
use realmrunner.Server.Manager.Start.{
  Control, listen, refused, ensure_control_config, spawn, configured, heap_for, preflighted,
  begin_start, start_server,
}
use realmrunner.Server.Manager.Starts.{ensure_control_config-status}

abbrev pub AtRest : String → Manager → Type 0
AtRest id m = (status_of id m.db ≡ some stopped) ⊎ (status_of id m.db ≡ some sleeping)

set_resting-AtRest :
    (id : String) (m : Manager) (st : Status)
    → status_of id m.db ≡ some st
    → AtRest id (set_resting id m)
set_resting-AtRest id m st e = elim (Option-cases (get_server id m.db)) [
  | inl n ↦ absurd (ground (arith, n, e))
  | inr (s, n) ↦ elim (Bool-cases s.auto_sleep) [
    | inl a ↦ inr (rw (set_resting-found id m s n) (rw a refl))
    | inr a ↦ inl (rw (set_resting-found id m s n) (rw a refl))
  ]
]

spawn-AtRest :
    (s : Server) (heap port : ℕ) (pid : Option ℕ) (m : Manager) (f : Fault)
    → status_of s.id m.db ≡ some starting
    → (spawn s heap port pid m).0 ≡ some f
    → AtRest s.id (spawn s heap port pid m).1
spawn-AtRest s heap port none m f e bad = set_resting-AtRest s.id m starting e
spawn-AtRest s heap port (some pid) m f e bad = absurd (ground (arith, bad))

configured-AtRest :
    (l : Launch) (s : Server) (heap : ℕ) (a : Control × Manager) (f : Fault)
    → status_of s.id a.1.db ≡ some starting
    → (configured l s heap a).0 ≡ some f
    → AtRest s.id (configured l s heap a).1
configured-AtRest l s heap (refused g, m) f e bad = set_resting-AtRest s.id m starting e
configured-AtRest l s heap (listen port, m) f e bad = spawn-AtRest s heap port l.pid m f e bad

preflighted-AtRest :
    (l : Launch) (s : Server) (heap : ℕ) (m : Manager) (r : Option Reason) (f : Fault)
    → status_of s.id m.db ≡ some starting
    → (preflighted l s heap m r).0 ≡ some f
    → AtRest s.id (preflighted l s heap m r).1
preflighted-AtRest l s heap m none f e bad =
    configured-AtRest l s heap (ensure_control_config l s m) f
      (ensure_control_config-status l s.id s m ∙ e) bad
preflighted-AtRest l s heap m (some r) f e bad =
    let same = status_of-record_exit s.id (pos 0) r s.id (set_resting s.id m).db in
    elim (set_resting-AtRest s.id m starting e) [ inl h ↦ inl (same ∙ h) | inr h ↦ inr (same ∙ h) ]

renamed-AtRest : (j k : String) (m : Manager) → j ≡ k → AtRest j m → AtRest k m
renamed-AtRest j k m e rest = rw e at rest

begin_start-AtRest :
    (w : World) (l : Launch) (id : String) (m : Manager) (found : Option Server) (f : Fault)
    → get_server id m.db ≡ found
    → (begin_start w l id m found).0 ≡ some f
    → ((begin_start w l id m found).1 ≡ m) ⊎ AtRest id (begin_start w l id m found).1
begin_start-AtRest w l id m none f e bad = inl refl
begin_start-AtRest w l id m (some s) f e bad =
    let known : status_of id m.db ≡ some s.status = rw e refl in
    let named = get_server-id id m.db s e in
    let begun = with_db m (update_server_status id starting m.db) in
    let marked : status_of s.id begun.db ≡ some starting =
      rw named (status_of-set id starting m.db s.status known) in
    let reason = preflight_java w.java_overrides w.runtimes s.version in
    elim (Bool-cases (is_running s.status)) [
      | inl r ↦ inl (rw r refl)
      | inr r ↦
          let rest = preflighted-AtRest l s (heap_for w s) begun reason f marked (rw r at bad) in
          inr (
            rw r
              (renamed-AtRest s.id id (preflighted l s (heap_for w s) begun reason).1 named rest))
    ]

-- A start that reports a failure has changed nothing, or leaves its server `stopped` or `sleeping`.
pub start_server-AtRest :
    (w : World) (l : Launch) (id : String) (m : Manager) (f : Fault)
    → (start_server w l id m).0 ≡ some f
    → ((start_server w l id m).1 ≡ m) ⊎ AtRest id (start_server w l id m).1
unfolding start_server
start_server-AtRest w l id m f bad = elim (Bool-cases (leb w.max_running (count_running m.db))) [
  | inl h ↦ inl (rw h refl)
  | inr h ↦ rw h (begin_start-AtRest w l id m (get_server id m.db) f refl (rw h at bad))
]
