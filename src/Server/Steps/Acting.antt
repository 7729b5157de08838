-- ===== src/Server/Steps/Acting.antt =====
-- A table predicate along what the manager of backend/server does without starting a server.
use realmrunner.Common.{String, Bool}
use realmrunner.Common.Int.{pos}
use realmrunner.Server.Store.{Reason, Server, Db, set_server_ready, update_server_version}
use realmrunner.Server.Manager.State.{World, Manager, resting_status}
use realmrunner.Server.Upgrade.{rolled_row}
use realmrunner.Server.Steps.{
  Act, stop, force_stop, exit, create, wipeout, limits, heap, schedule, auto_sleep, auto_restart,
  go_to_sleep, proxies, idle, tick, mark_ready, set_version, roll_back, share,
}
use realmrunner.Server.Steps.Closure.{
  Closed, status-closed, record_exit-closed, ready-closed, share_token-closed, resting_of-down,
}
use realmrunner.Server.Steps.Keeping.{
  stop_server-keeps, force_stop_server-keeps, process_exited-keeps, add_server-keeps,
  wipeout_server-keeps, set_limits-keeps, change_heap_mb-keeps, set_restart_schedule-keeps,
}
use realmrunner.Server.Steps.Sleeping.{
  change_auto_sleep-keeps, change_auto_restart-keeps, sleep-keeps, start_sleep_proxies-keeps,
  check_idle_servers-keeps,
}

module _ {P : Db → Type 0} (c : Closed P) where
  rolled_row-keeps :
      (id : String) (s : Server) (existed : Bool) (reason : Reason) (db : Db)
      → P db
      → P (rolled_row id s existed reason db)
  unfolding resting_status
  rolled_row-keeps id s existed reason db p =
      let before = update_server_version id s.version s.flavor db in
      let versioned = set_server_ready id existed before in
      record_exit-closed c.updates id (pos 0) reason _ (
        status-closed c.updates id (resting_status id versioned) versioned
          (resting_of-down c.updates _)
          (ready-closed c.updates id existed before (c.versioned id s.version s.flavor db p)))

module _ {w : World} {P : Db → Type 0} (c : Closed P) where
  pub Act-keeps : {m t : Manager} → Act w m t → P m.db → P t.db
  Act-keeps {m} (stop id) = stop_server-keeps c.updates id m
  Act-keeps {m} (force_stop id) = force_stop_server-keeps c.updates id m
  Act-keeps {m} (exit mon result log) = process_exited-keeps c.updates mon result log m
  Act-keeps {m} (create id name version flavor port made) =
      add_server-keeps c w id name version flavor port made m
  Act-keeps {m} (wipeout id removed) = wipeout_server-keeps c id removed m
  Act-keeps {m} (limits id cpu memory) = set_limits-keeps c.updates id cpu memory m
  Act-keeps {m} (heap id mb) = change_heap_mb-keeps c.updates id mb m
  Act-keeps {m} (schedule id text) = set_restart_schedule-keeps c.updates id text m
  Act-keeps {m} (auto_sleep bound l id enabled minutes) =
      change_auto_sleep-keeps c.updates bound l id enabled minutes m
  Act-keeps {m} (auto_restart id enabled) = change_auto_restart-keeps c.updates id enabled m
  Act-keeps {m} (go_to_sleep id) = sleep-keeps c.updates id m
  Act-keeps {m} (proxies bound servers) = start_sleep_proxies-keeps c.updates bound servers m
  Act-keeps {m} (idle players servers) = check_idle_servers-keeps c.updates players servers m
  Act-keeps {m} (tick seconds later) = λ p. p
  Act-keeps {m} (mark_ready id b) = ready-closed c.updates id b m.db
  Act-keeps {m} (set_version id version flavor) = c.versioned id version flavor m.db
  Act-keeps {m} (roll_back id old existed reason) = rolled_row-keeps c id old existed reason m.db
  Act-keeps {m} (share id token) = share_token-closed c.updates id token m.db
