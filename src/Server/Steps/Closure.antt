-- ===== src/Server/Steps/Closure.antt =====
-- Predicates on the table of backend/server/db.go that its statements keep, for the invariants of the
-- manager.
use realmrunner.Common.{ℕ, String, ◌≡◌, refl, Bool, true, false, Option, none, some, arith}
use realmrunner.Common.Int.{ℤ, pos}
use realmrunner.Server.Store.{
  Status, Server, Db, Reason, is_running, update_where, create_server, delete_server,
  update_server_status, update_server_last_started, set_rcon_credentials, set_internal_port,
  record_exit, clear_last_error, update_server_limits, set_heap_mb, update_restart_schedule,
  set_auto_sleep, set_auto_restart, set_share_token, set_server_ready, update_server_version,
}
use realmrunner.Server.Store.Laws.{KeepsKey}
use realmrunner.Server.Manager.State.{Manager, resting_of, resting_status, set_resting}

-- An update that leaves the key, the version and the flavor alone and makes no server running.
pub record Quiet (f : Server → Server) : Type 0 where
  pub keeps : KeepsKey f
  pub starts_none : (s : Server) → is_running (f s).status ≡ true → is_running s.status ≡ true
  pub version_kept : (s : Server) → (f s).version ≡ s.version
  pub flavor_kept : (s : Server) → (f s).flavor ≡ s.flavor

-- Kept by those updates.
pub record Updated (P : Db → Type 0) : Type 0 where
  pub updated :
      (id : String) (f : Server → Server) (db : Db) → Quiet f → P db → P (update_where id f db)

-- Kept by new rows, by deletions and by a new version as well.
pub record Closed (P : Db → Type 0) : Type 0 where
  pub updates : Updated P
  pub created :
      (s : Server) (db db' : Db)
      → is_running s.status ≡ false
      → create_server s db ≡ some db'
      → P db
      → P db'
  pub deleted : (id : String) (db : Db) → P db → P (delete_server id db)
  pub versioned :
      (id version flavor : String) (db : Db) → P db → P (update_server_version id version flavor db)

-- An update of columns other than these and the status.
quiet :
    (f : Server → Server)
    → ((s : Server) → (f s).id ≡ s.id)
    → ((s : Server) → (f s).port ≡ s.port)
    → ((s : Server) → (f s).status ≡ s.status)
    → ((s : Server) → (f s).version ≡ s.version)
    → ((s : Server) → (f s).flavor ≡ s.flavor)
    → Quiet f
quiet f i p t v x = record {
  version_kept = v;
  flavor_kept = x;
  keeps = record { id_kept = i; port_kept = p };
  starts_none = λ s h. rw (t s) at h;
}

module _ {P : Db → Type 0} (c : Updated P) where
  pub status-closed :
      (id : String) (st : Status) (db : Db)
      → is_running st ≡ false
      → P db
      → P (update_server_status id st db)
  unfolding update_server_status
  status-closed id st db h p =
      c.updated id (λ s. record s { status = st }) db
        (record {
          keeps = record { id_kept = λ s. refl; port_kept = λ s. refl };
          starts_none = λ s k. cc;
          version_kept = λ s. refl;
          flavor_kept = λ s. refl;
        })
        p

  pub last_started-closed :
      (id : String) (t : ℕ) (db : Db) → P db → P (update_server_last_started id t db)
  unfolding update_server_last_started
  last_started-closed id t db = c.updated id _ db (
      quiet (λ s. record s { last_started_at = some t }) (λ s. refl) (λ s. refl) (λ s. refl)
        (λ s. refl) (λ s. refl))

  pub credentials-closed :
      (id : String) (port : ℕ) (password : String) (db : Db)
      → P db
      → P (set_rcon_credentials id port password db)
  unfolding set_rcon_credentials
  credentials-closed id port password db = c.updated id _ db (
      quiet (λ s. record s { rcon_port = port; rcon_password = password }) (λ s. refl) (λ s. refl)
        (λ s. refl) (λ s. refl) (λ s. refl))

  pub internal_port-closed :
      (id : String) (port : ℕ) (db : Db) → P db → P (set_internal_port id port db)
  unfolding set_internal_port
  internal_port-closed id port db = c.updated id _ db (
      quiet (λ s. record s { internal_port = port }) (λ s. refl) (λ s. refl) (λ s. refl) (λ s. refl)
        (λ s. refl))

  pub record_exit-closed :
      (id : String) (code : ℤ) (r : Reason) (db : Db) → P db → P (record_exit id code r db)
  unfolding record_exit
  record_exit-closed id code r db = c.updated id _ db (
      quiet (λ s. record s { last_exit_code = code; last_error = r }) (λ s. refl) (λ s. refl)
        (λ s. refl) (λ s. refl) (λ s. refl))

  pub clear_last_error-closed : (id : String) (db : Db) → P db → P (clear_last_error id db)
  unfolding clear_last_error
  clear_last_error-closed id db = c.updated id _ db (
      quiet (λ s. record s { last_exit_code = pos 0; last_error = Reason.nothing_recorded })
        (λ s. refl) (λ s. refl) (λ s. refl) (λ s. refl) (λ s. refl))

  pub limits-closed :
      (id : String) (cpu memory : ℤ) (db : Db) → P db → P (update_server_limits id cpu memory db)
  unfolding update_server_limits
  limits-closed id cpu memory db = c.updated id _ db (
      quiet (λ s. record s { cpu_limit = cpu; memory_limit_mb = memory }) (λ s. refl) (λ s. refl)
        (λ s. refl) (λ s. refl) (λ s. refl))

  pub heap_mb-closed : (id : String) (mb : ℤ) (db : Db) → P db → P (set_heap_mb id mb db)
  unfolding set_heap_mb
  heap_mb-closed id mb db = c.updated id _ db (
      quiet (λ s. record s { heap_mb = mb }) (λ s. refl) (λ s. refl) (λ s. refl) (λ s. refl)
        (λ s. refl))

  pub schedule-closed : (id text : String) (db : Db) → P db → P (update_restart_schedule id text db)
  unfolding update_restart_schedule
  schedule-closed id text db = c.updated id _ db (
      quiet (λ s. record s { restart_schedule = text }) (λ s. refl) (λ s. refl) (λ s. refl)
        (λ s. refl) (λ s. refl))

  pub auto_sleep-closed :
      (id : String) (on : Bool) (minutes : ℤ) (db : Db) → P db → P (set_auto_sleep id on minutes db)
  unfolding set_auto_sleep
  auto_sleep-closed id on minutes db =
      c.updated id _ db (quiet _ (λ s. refl) (λ s. refl) (λ s. refl) (λ s. refl) (λ s. refl))

  pub auto_restart-closed :
      (id : String) (on : Bool) (db : Db) → P db → P (set_auto_restart id on db)
  unfolding set_auto_restart
  auto_restart-closed id on db = c.updated id _ db (
      quiet (λ s. record s { auto_restart = on }) (λ s. refl) (λ s. refl) (λ s. refl) (λ s. refl)
        (λ s. refl))

  pub share_token-closed : (id token : String) (db : Db) → P db → P (set_share_token id token db)
  unfolding set_share_token
  share_token-closed id token db = c.updated id _ db (
      quiet (λ s. record s { share_token = token }) (λ s. refl) (λ s. refl) (λ s. refl) (λ s. refl)
        (λ s. refl))

  pub ready-closed :
      (id : String) (ready : Bool) (db : Db) → P db → P (set_server_ready id ready db)
  unfolding set_server_ready
  ready-closed id ready db = c.updated id _ db (
      quiet (λ s. record s { ready = ready }) (λ s. refl) (λ s. refl) (λ s. refl) (λ s. refl)
        (λ s. refl))

  pub resting_of-down : (s : Option Server) → is_running (resting_of s) ≡ false
  resting_of-down none = refl
  resting_of-down (some s) = ground arith

  pub set_resting-closed : (id : String) (m : Manager) → P m.db → P (set_resting id m).db
  unfolding set_resting
  set_resting-closed id m = status-closed id (resting_status id m.db) m.db (resting_of-down _)
