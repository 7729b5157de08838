-- ===== src/Server/Upgrade/Rounds.antt =====
-- The row of a server through the steps of an upgrade of backend/server/upgrade.go: it stays, with its
-- version and flavor.
use realmrunner.Common.{
  ◌≡◌, ◌∙◌, refl, inl, inr, String, Bool, true, false, Option, none, some, List, [], ◌∷◌,
}
use realmrunner.Common.{str_eq, Bool-cases, Option-cases}
use realmrunner.Server.Store.{Server, Db, get_server, update_where, update_server_status, running}
use realmrunner.Server.Store.Laws.{KeepsKey, get_server-update_where}
use realmrunner.Server.Crash.{WaitResult}
use realmrunner.Server.Manager.State.{World, Launch, Monitor, Manager}
use realmrunner.Server.Manager.Start.{start_server}
use realmrunner.Server.Manager.Stop.{force_stop_server}
use realmrunner.Server.Steps.Closure.{Updated}
use realmrunner.Server.Steps.Starting.{Room, start_server-keeps}
use realmrunner.Server.Steps.Keeping.{process_exited-keeps}
use realmrunner.Server.Upgrade.{
  Probe, WaitFault, probed, apply_exits, wait_loop, wait_until_ready, has_ended,
}

-- The table has the server, in this version and flavor.
abbrev pub HasVersion : String → String → String → Db → Type 0
HasVersion id version flavor db =
    (s : Server) × (get_server id db ≡ some s) × (s.version ≡ version) × (s.flavor ≡ flavor)

-- An update of any row, if it keeps the version and the flavor.
pub HasVersion-update_where :
    (id version flavor k : String) (f : Server → Server) (db : Db)
    → KeepsKey f
    → ((s : Server) → (f s).version ≡ s.version)
    → ((s : Server) → (f s).flavor ≡ s.flavor)
    → HasVersion id version flavor db
    → HasVersion id version flavor (update_where k f db)
HasVersion-update_where id version flavor k f db keeps v x (s, e, ev, ex) =
    elim (Bool-cases (str_eq k id)) [
      | inl t ↦ (f s, rw (get_server-update_where k f keeps, t, e) refl, v s ∙ ev, x s ∙ ex)
      | inr t ↦ (s, rw (get_server-update_where k f keeps, t, e) refl, ev, ex)
    ]

module _ (id version flavor : String) where
  HasVersion-Updated : Updated (HasVersion id version flavor)
  HasVersion-Updated = record {
    updated = λ k f db q h.
        HasVersion-update_where id version flavor k f db q.keeps q.version_kept q.flavor_kept h;
  }

  run-HasVersion :
      (k : String) (db : Db)
      → HasVersion id version flavor db
      → HasVersion id version flavor (update_server_status k running db)
  unfolding update_server_status
  run-HasVersion k db =
      HasVersion-update_where id version flavor k (λ s. record s { status = running }) db
        (record { id_kept = λ s. refl; port_kept = λ s. refl }) (λ s. refl) (λ s. refl)

  HasVersion-Room :
      (w : World) → Room w (HasVersion id version flavor) (HasVersion id version flavor)
  HasVersion-Room w = record {
    p_closed = HasVersion-Updated;
    q_closed = HasVersion-Updated;
    weaken = λ db h. h;
    room = λ db e h. h;
    run = run-HasVersion;
  }

  pub start_server-HasVersion :
      (w : World) (l : Launch) (k : String) (m : Manager)
      → HasVersion id version flavor m.db
      → HasVersion id version flavor (start_server w l k m).1.db
  start_server-HasVersion w l k m = start_server-keeps (HasVersion-Room w) l k m

  pub force_stop_server-HasVersion :
      (k : String) (m : Manager)
      → HasVersion id version flavor m.db
      → HasVersion id version flavor (force_stop_server k m).1.db
  force_stop_server-HasVersion k m =
      realmrunner.Server.Steps.Keeping.force_stop_server-keeps HasVersion-Updated k m

  apply_exits-HasVersion :
      (exits : List (Monitor × WaitResult × Option (List String))) (m : Manager)
      → HasVersion id version flavor m.db
      → HasVersion id version flavor (apply_exits exits m).db
  unfolding apply_exits
  apply_exits-HasVersion [] m h = h
  apply_exits-HasVersion ((monitor, result, log) ∷ exits) m h =
      apply_exits-HasVersion exits _
        (process_exited-keeps HasVersion-Updated monitor result log m h)

  probed-HasVersion :
      (m : Manager) (answers : Bool) (later : Option WaitFault × Manager) (s : Option Server)
      → HasVersion id version flavor m.db
      → HasVersion id version flavor later.1.db
      → HasVersion id version flavor (probed m answers later s).1.db
  probed-HasVersion m answers later none h k = h
  probed-HasVersion m true later (some s) h k = elim (Bool-cases (has_ended s.status)) [
    | inl e ↦ rw e h
    | inr e ↦ rw e h
  ]
  probed-HasVersion m false later (some s) h k = elim (Bool-cases (has_ended s.status)) [
    | inl e ↦ rw e h
    | inr e ↦ rw e k
  ]

  wait_loop-HasVersion :
      (k : String) (probes : List Probe) (m : Manager)
      → HasVersion id version flavor m.db
      → HasVersion id version flavor (wait_loop k probes m).1.db
  unfolding wait_loop
  wait_loop-HasVersion k [] m h = h
  wait_loop-HasVersion k (p ∷ ps) m h =
      let now = apply_exits-HasVersion p.exits m h in
      probed-HasVersion (apply_exits p.exits m) p.answers (wait_loop k ps (apply_exits p.exits m))
        (get_server k (apply_exits p.exits m).db) now
        (wait_loop-HasVersion k ps (apply_exits p.exits m) now)

  pub wait_until_ready-HasVersion :
      (k : String) (probes : List Probe) (m : Manager)
      → HasVersion id version flavor m.db
      → HasVersion id version flavor (wait_until_ready k probes m).1.db
  unfolding wait_until_ready
  wait_until_ready-HasVersion k probes m h = elim (Option-cases (get_server k m.db)) [
    | inl e ↦ rw (wait_until_ready, e) h
    | inr (s, e) ↦ rw (wait_until_ready, e) (wait_loop-HasVersion k probes m h)
  ]
