-- ===== src/Server/Store.antt =====
-- backend/server/db.go: the table of servers, one function for each statement that the manager
-- issues. A statement succeeds unless a constraint of the schema refuses it; SQLite's own failures
-- are not modelled.
pub mod Laws
pub mod Counting
pub mod Columns
use realmrunner.Common.{ℕ, zero, suc, ◌+◌, String, Bool, true, false, ◌||◌, not, Option, none, some}
use realmrunner.Common.{List, [], ◌∷◌, ltb, ◌==◌, if◌then◌else◌, str_eq}
use realmrunner.Common.Int.{ℤ, pos, is_pos}

pub data Status : Type 0 where
  stopped starting running stopping sleeping crashed : Status

abbrev pub is_running : Status → Bool
is_running running = true
is_running _ = false

-- The text of `last_error`, as the data that it is formatted from.
pub data Reason : Type 0 where
  nothing_recorded : Reason
  needs_java : ℕ → ℕ → Reason
  exited : ℤ → Reason
  killed : String → Reason
  out_of_memory port_in_use eula_refused : Reason
  newer_java start_failure bad_field : String → Reason
  gave_up : Reason → Reason
  upgrade_failed : String → Reason

-- `cpu_limit` is in thousandths of a core, and times are in seconds.
pub record Server : Type 0 where
  pub id : String
  pub name : String
  pub version : String
  pub flavor : String
  pub port : ℕ
  pub status : Status
  pub cpu_limit : ℤ
  pub memory_limit_mb : ℤ
  pub restart_schedule : String
  pub ready : Bool
  pub share_token : String
  pub created_at : ℕ
  pub last_started_at : Option ℕ
  pub rcon_port : ℕ
  pub rcon_password : String
  pub auto_sleep : Bool
  pub idle_timeout_min : ℤ
  pub internal_port : ℕ
  pub heap_mb : ℤ
  pub auto_restart : Bool
  pub last_exit_code : ℤ
  pub last_error : Reason

abbrev pub Db : Type 0
Db = List Server

-- `SELECT … WHERE id = ?`
unfoldable pub get_server : String → Db → Option Server
get_server id [] = none
get_server id (s ∷ db) = if str_eq s.id id then some s else get_server id db

-- `UPDATE servers SET … WHERE id = ?`
unfoldable pub update_where : String → (Server → Server) → Db → Db
update_where id f [] = []
update_where id f (s ∷ db) = (if str_eq s.id id then f s else s) ∷ update_where id f db

unfoldable pub has_id : String → Db → Bool
has_id id [] = false
has_id id (s ∷ db) = str_eq s.id id || has_id id db

-- PortExists
unfoldable pub port_exists : ℕ → Db → Bool
port_exists port [] = false
port_exists port (s ∷ db) = s.port == port || port_exists port db

-- CountRunningServers
unfoldable pub count_running : Db → ℕ
count_running [] = 0
count_running (s ∷ db) = if is_running s.status then suc (count_running db) else count_running db

-- The columns that the INSERT does not name take the defaults of the schema.
abbrev with_defaults : Server → Server
with_defaults s = record s {
  cpu_limit = pos 0;
  memory_limit_mb = pos 0;
  restart_schedule = "";
  ready = false;
  share_token = "";
  last_started_at = none;
  auto_sleep = false;
  last_exit_code = pos 0;
  last_error = nothing_recorded;
  heap_mb = pos 0;
}

-- CreateServer: `id` is the primary key and `port` is unique; otherwise the row is added.
unfoldable pub create_server : Server → Db → Option Db
unfolding has_id port_exists
create_server s db =
    if has_id s.id db || port_exists s.port db then none else some (with_defaults s ∷ db)

-- DeleteServer
unfoldable pub delete_server : String → Db → Db
delete_server id [] = []
delete_server id (s ∷ db) =
    let rest = delete_server id db in if str_eq s.id id then rest else s ∷ rest

unfoldable pub update_server_status : String → Status → Db → Db
unfolding update_where
update_server_status id status = update_where id (λ s. record s { status = status })

unfoldable pub update_server_last_started : String → ℕ → Db → Db
unfolding update_where
update_server_last_started id time = update_where id (λ s. record s { last_started_at = some time })

unfoldable pub set_share_token : String → String → Db → Db
unfolding update_where
set_share_token id token = update_where id (λ s. record s { share_token = token })

unfoldable pub set_server_ready : String → Bool → Db → Db
unfolding update_where
set_server_ready id ready = update_where id (λ s. record s { ready = ready })

unfoldable pub update_restart_schedule : String → String → Db → Db
unfolding update_where
update_restart_schedule id schedule =
    update_where id (λ s. record s { restart_schedule = schedule })

unfoldable pub update_server_limits : String → ℤ → ℤ → Db → Db
unfolding update_where
update_server_limits id cpu memory =
    update_where id (λ s. record s { cpu_limit = cpu; memory_limit_mb = memory })

unfoldable pub update_server_version : String → String → String → Db → Db
unfolding update_where
update_server_version id version flavor =
    update_where id (λ s. record s { version = version; flavor = flavor })

unfoldable pub set_rcon_credentials : String → ℕ → String → Db → Db
unfolding update_where
set_rcon_credentials id port password =
    update_where id (λ s. record s { rcon_port = port; rcon_password = password })

unfoldable pub set_internal_port : String → ℕ → Db → Db
unfolding update_where
set_internal_port id port = update_where id (λ s. record s { internal_port = port })

unfoldable pub set_auto_sleep : String → Bool → ℤ → Db → Db
unfolding update_where
set_auto_sleep id enabled minutes =
    let timeout = if is_pos minutes then minutes else pos 15 in
    update_where id (λ s. record s { auto_sleep = enabled; idle_timeout_min = timeout })

unfoldable pub set_auto_restart : String → Bool → Db → Db
unfolding update_where
set_auto_restart id enabled = update_where id (λ s. record s { auto_restart = enabled })

unfoldable pub record_exit : String → ℤ → Reason → Db → Db
unfolding update_where
record_exit id code reason =
    update_where id (λ s. record s { last_exit_code = code; last_error = reason })

unfoldable pub clear_last_error : String → Db → Db
unfolding update_where
clear_last_error id =
    update_where id (λ s. record s { last_exit_code = pos 0; last_error = nothing_recorded })

unfoldable pub set_heap_mb : String → ℤ → Db → Db
unfolding update_where
set_heap_mb id heap = update_where id (λ s. record s { heap_mb = heap })

-- GetServerByShareToken; the empty token, which an unshared server has, finds nothing.
unfoldable pub find_share_token : String → Db → Option Server
find_share_token token [] = none
find_share_token token (s ∷ db) =
    if str_eq s.share_token token then some s else find_share_token token db

unfoldable pub get_server_by_share_token : String → Db → Option Server
unfolding find_share_token
get_server_by_share_token token db = if str_eq token "" then none else find_share_token token db
