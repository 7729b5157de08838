-- ===== src/Server/Manager/State.antt =====
-- The state of the manager of backend/server/manager.go, its configuration, and what the operating
-- system answers, which is an argument of the operations.
use realmrunner.Common.{ℕ, ◌+◌, String, Bool, Option, none, some}
use realmrunner.Common.{List, if◌then◌else◌}
use realmrunner.Common.Assoc.{Assoc}
use realmrunner.Minecraft.Java.{Runtimes}
use realmrunner.Server.Store.{
  Status, stopped, sleeping, Reason, Server, Db, get_server, update_server_status,
}

-- The configuration, and the Java runtimes of the image.
pub record World : Type 0 where
  pub max_running : ℕ
  pub port_min : ℕ
  pub port_max : ℕ
  pub memory_mb : ℕ
  pub java_overrides : ℕ → String
  pub runtimes : Runtimes

-- What one start meets: the random password, the write of server.properties, and the new process.
pub record Launch : Type 0 where
  pub password : Option String
  pub properties_written : Bool
  pub pid : Option ℕ

-- A monitor goroutine, which waits for the process behind a `*Process` to exit, with the heap that the
-- command line of the process gives to Java.
pub record Monitor : Type 0 where
  pub id : String
  pub handle : ℕ
  pub started_at : ℕ
  pub listen_port : ℕ
  pub heap_mb : ℕ

-- A `*Process` is its number; `stop_requested` has those on which the flag is set. `proxies` has
-- the public and the internal port of each sleep proxy.
pub record Manager : Type 0 where
  pub db : Db
  pub processes : Assoc ℕ
  pub next_handle : ℕ
  pub stop_requested : List ℕ
  pub monitors : List Monitor
  pub collecting : Assoc (ℕ × ℕ)
  pub attempts : Assoc ℕ
  pub exit_descriptions : Assoc Reason
  pub proxies : Assoc (ℕ × ℕ)
  pub sleep_states : Assoc ℕ
  pub restarts_due : List (String × ℕ)
  pub now : ℕ

pub data Fault : Type 0 where
  not_found limit_reached already_running not_running must_be_stopped : Fault
  java_missing : Reason → Fault
  no_entropy properties_failed spawn_failed : Fault
  port_out_of_range port_taken insert_failed mkdir_failed : Fault
  remove_failed auto_sleep_off proxy_failed : Fault
  negative_heap heap_too_small : Fault
  heap_over_limit : ℕ → Fault

-- Go's `error`: `none` is nil.
abbrev pub Outcome : Type 0
Outcome = Option Fault × Manager

abbrev pub derived_rcon_port : ℕ → ℕ
derived_rcon_port port = port + 10000

abbrev pub derived_internal_port : ℕ → ℕ
derived_internal_port port = port + 20000

abbrev pub with_db : Manager → Db → Manager
with_db m db = record m { db = db }

abbrev pub resting_of : Option Server → Status
resting_of none = stopped
resting_of (some s) = if s.auto_sleep then sleeping else stopped

unfoldable pub resting_status : String → Db → Status
unfolding get_server
resting_status id db = resting_of (get_server id db)

unfoldable pub set_resting : String → Manager → Manager
unfolding resting_status update_server_status
set_resting id m = with_db m (update_server_status id (resting_status id m.db) m.db)
