-- ===== src/Server/Manager/Admin.antt =====
-- CreateServer, WipeoutServer and the settings of backend/server/manager.go.
use realmrunner.Common.{ℕ, ◌+◌, ◌*◌, ◌/◌, String, Bool, true, false, ◌&&◌, not, Option, none, some}
use realmrunner.Common.{ltb, leb, if◌then◌else◌, str_eq}
use realmrunner.Common.Int.{ℤ, pos, is_pos, is_neg, pos_part}
use realmrunner.Server.Store.{
  Status, stopped, sleeping, crashed, is_running, nothing_recorded, Server, Db, get_server,
  port_exists, create_server, delete_server, update_server_limits, set_heap_mb,
  update_restart_schedule,
}
use realmrunner.Server.Manager.State.{
  World, Manager, Outcome, with_db, derived_rcon_port, derived_internal_port, Fault, not_found,
  must_be_stopped, port_out_of_range, port_taken, insert_failed, mkdir_failed, remove_failed,
  negative_heap, heap_too_small, heap_over_limit,
}

-- CreateServer with the id that uuid.New made, and whether the directory could be made.
unfoldable pub new_server : String → String → String → String → ℕ → ℕ → Server
new_server id name version flavor port now = record {
  id = id;
  name = name;
  version = version;
  flavor = if str_eq flavor "" then "vanilla" else flavor;
  port = port;
  status = stopped;
  cpu_limit = pos 0;
  memory_limit_mb = pos 0;
  restart_schedule = "";
  ready = false;
  share_token = "";
  created_at = now;
  last_started_at = none;
  rcon_port = derived_rcon_port port;
  rcon_password = "";
  auto_sleep = false;
  idle_timeout_min = pos 15;
  internal_port = derived_internal_port port;
  heap_mb = pos 0;
  auto_restart = true;
  last_exit_code = pos 0;
  last_error = nothing_recorded;
}

abbrev pub inserted : String → Bool → Manager → Option Db → Outcome
inserted id dir_made m none = (some insert_failed, m)
inserted id dir_made m (some db) =
    if dir_made then (none, with_db m db) else (some mkdir_failed, with_db m (delete_server id db))

unfoldable pub add_server : World → String → String → String → String → ℕ → Bool → Manager → Outcome
unfolding port_exists new_server create_server delete_server
add_server w id name version flavor port dir_made m =
    if not (leb w.port_min port && leb port w.port_max)
    then (some port_out_of_range, m)
    else if port_exists port m.db
    then (some port_taken, m)
    else inserted id dir_made m (create_server (new_server id name version flavor port m.now) m.db)

abbrev pub wipeout_found : String → Bool → Manager → Option Server → Outcome
wipeout_found id removed m none = (some not_found, m)
wipeout_found id removed m (some s) =
    if is_running s.status
    then (some must_be_stopped, m)
    else if removed
    then (none, with_db m (delete_server id m.db))
    else (some remove_failed, m)

-- WipeoutServer, with whether the directory could be removed.
unfoldable pub wipeout_server : String → Bool → Manager → Outcome
unfolding get_server delete_server
wipeout_server id removed m = wipeout_found id removed m (get_server id m.db)

abbrev pub is_down : Status → Bool
is_down stopped = true
is_down sleeping = true
is_down crashed = true
is_down _ = false

abbrev pub limits_found : String → ℤ → ℤ → Manager → Option Server → Outcome
limits_found id cpu memory m none = (some not_found, m)
limits_found id cpu memory m (some s) =
    if is_down s.status
    then (none, with_db m (update_server_limits id cpu memory m.db))
    else (some must_be_stopped, m)

unfoldable pub set_limits : String → ℤ → ℤ → Manager → Outcome
unfolding get_server update_server_limits
set_limits id cpu memory m = limits_found id cpu memory m (get_server id m.db)

abbrev pub required_container_mb : ℕ → ℕ
required_container_mb heap = heap * 4 / 3 + 256

abbrev pub heap_fault : ℤ → Server → Option Fault
heap_fault heap s =
    let required = required_container_mb (pos_part heap) in
    if is_neg heap
    then some negative_heap
    else if is_pos heap && ltb (pos_part heap) 512
    then some heap_too_small
    else if is_pos s.memory_limit_mb && is_pos heap && ltb (pos_part s.memory_limit_mb) required
    then some (heap_over_limit required)
    else none

abbrev pub heap_checked : String → ℤ → Manager → Option Fault → Outcome
heap_checked id heap m (some f) = (some f, m)
heap_checked id heap m none = (none, with_db m (set_heap_mb id heap m.db))

abbrev pub heap_found : String → ℤ → Manager → Option Server → Outcome
heap_found id heap m none = (some not_found, m)
heap_found id heap m (some s) = heap_checked id heap m (heap_fault heap s)

unfoldable pub change_heap_mb : String → ℤ → Manager → Outcome
unfolding get_server set_heap_mb
change_heap_mb id heap m = heap_found id heap m (get_server id m.db)

unfoldable pub set_restart_schedule : String → String → Manager → Outcome
unfolding update_restart_schedule
set_restart_schedule id schedule m = (none, with_db m (update_restart_schedule id schedule m.db))
