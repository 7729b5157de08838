-- ===== src/Server/Manager/Stopping.antt =====
-- StopServer, ForceStopServer and the late monitor of backend/server/manager.go.
use realmrunner.Common.{ℕ, ◌≡◌, ◌∙◌, refl, ap, String, true, false, Option, none, some}
use realmrunner.Common.{if◌then◌else◌, str_eq, str_eq_refl}
use realmrunner.Common.Assoc.{lookup, lookup-erase}
use realmrunner.Server.Store.{stopped, stopping, sleeping, Server, get_server, update_server_status}
use realmrunner.Server.Store.Columns.{get_server-update_server_status}
use realmrunner.Server.Manager.State.{Manager, resting_of, resting_status, set_resting, with_db}
use realmrunner.Server.Manager.Stop.{
  can_stop, can_force_stop, release_process, stop_found, stop_server, force_stop_server,
}

-- The status that a server has once nothing runs for it.
pub set_resting-found :
    (id : String) (m : Manager) (s : Server)
    → get_server id m.db ≡ some s
    → get_server id (set_resting id m).db ≡ some (record s { status = resting_of (some s) })
unfolding set_resting resting_status
set_resting-found id m s e = rw (get_server-update_server_status, e, str_eq_refl) refl

pub set_resting-other :
    (id j : String) (m : Manager)
    → str_eq id j ≡ false
    → get_server j (set_resting id m).db ≡ get_server j m.db
unfolding set_resting
set_resting-other id j m h = rw (get_server-update_server_status, h) refl

pub release_process-processes :
    (id : String) (m : Manager) (h : Option ℕ)
    → lookup id m.processes ≡ h
    → lookup id (release_process id m h).processes ≡ none
unfolding release_process
release_process-processes id m none e = e
release_process-processes id m (some h) e = rw (lookup-erase, str_eq_refl) refl

release_process-db : (id : String) (m : Manager) (h : Option ℕ) → (release_process id m h).db ≡ m.db
unfolding release_process
release_process-db id m none = refl
release_process-db id m (some h) = refl

-- What a stop has achieved: the server rests, has no process, and no other server is touched.
abbrev pub Rests : String → Server → Manager → Manager → Type 0
Rests id s m t =
    (get_server id t.db ≡ some (record s { status = if s.auto_sleep then sleeping else stopped }))
    × (lookup id t.processes ≡ none)
    × ((j : String) → str_eq id j ≡ false → get_server j t.db ≡ get_server j m.db)

released-Rests :
    (id : String) (m : Manager) (s : Server)
    → get_server id m.db ≡ some s
    → Rests id s m (set_resting id (release_process id m (lookup id m.processes)))
unfolding set_resting
released-Rests id m s e =
    let kept = release_process-db id m (lookup id m.processes) in
    let found =
      set_resting-found id (release_process id m (lookup id m.processes)) s
        (ap (get_server id) kept ∙ e) in
    (
      found,
      release_process-processes id m (lookup id m.processes) refl,
      λ j h.
          set_resting-other id j (release_process id m (lookup id m.processes)) h
          ∙ ap (get_server j) kept,
    )

stop_found-Rests :
    (id : String) (m : Manager) (s : Server)
    → get_server id m.db ≡ some s
    → can_stop s.status ≡ true
    → ((stop_found id m (some s)).0 ≡ none) × Rests id s m (stop_found id m (some s)).1
stop_found-Rests id m s e c =
    let marked = with_db m (update_server_status id stopping m.db) in
    let found : get_server id marked.db ≡ some (record s { status = stopping }) =
      rw (get_server-update_server_status, e, str_eq_refl) refl in
    let (row, gone, rest) = released-Rests id marked _ found in
    rw c (refl, (row, gone, λ j h. rest j h ∙ rw (get_server-update_server_status, h) refl))

-- Stopping a running or starting server succeeds; the server is then `sleeping` if auto-sleep is on
-- for it and `stopped` if not, its process entry is gone, and the other servers are as before.
pub stop_server-Rests :
    (id : String) (m : Manager) (s : Server)
    → get_server id m.db ≡ some s
    → can_stop s.status ≡ true
    → ((stop_server id m).0 ≡ none) × Rests id s m (stop_server id m).1
unfolding stop_server
stop_server-Rests id m s e c = rw e (stop_found-Rests id m s e c)

-- A forced stop of a running, starting or stopping server succeeds; the server is then `sleeping` if
-- auto-sleep is on for it and `stopped` if not, its process entry is gone, and the other servers are as
-- before.
pub force_stop_server-Rests :
    (id : String) (m : Manager) (s : Server)
    → get_server id m.db ≡ some s
    → can_force_stop s.status ≡ true
    → ((force_stop_server id m).0 ≡ none) × Rests id s m (force_stop_server id m).1
unfolding force_stop_server
force_stop_server-Rests id m s e c = let done = released-Rests id m s e in rw e (rw c (refl, done))
