-- ===== src/Server/Steps.antt =====
-- The manager of backend/server as a transition system: the requests of the API and the scheduler,
-- and what comes by itself, in any order. A start goes on piece by piece between them, beside others;
-- wake, a delayed restart and an upgrade start a server in the same pieces.
pub mod Phases
pub mod Closure
pub mod Starting
pub mod Keeping
pub mod Sleeping
pub mod Acting
pub mod Limit
pub mod Whole
mod Tests
use realmrunner.Common.{ℕ, ◌≤◌, ◌≡◌, String, Bool, false, Option, List, [], ◌∷◌, ◌++◌, leb, length}
use realmrunner.Common.Int.{ℤ}
use realmrunner.Server.Store.{
  Reason, Server, get_server, count_running, set_share_token, set_server_ready,
  update_server_version,
}
use realmrunner.Server.Crash.{WaitResult}
use realmrunner.Server.Manager.State.{World, Launch, Monitor, Manager, with_db}
use realmrunner.Server.Manager.Start.{is_full}
use realmrunner.Server.Manager.Stop.{stop_server, force_stop_server, process_exited}
use realmrunner.Server.Manager.Admin.{
  add_server, wipeout_server, set_limits, change_heap_mb, set_restart_schedule,
}
use realmrunner.Server.Sleep.Wake.{change_auto_sleep}
use realmrunner.Server.Sleep.Proxy.{start_sleep_proxies}
use realmrunner.Server.Sleep.Idle.{sleep, check_idle_servers, change_auto_restart}
use realmrunner.Server.Upgrade.{rolled_row}
use realmrunner.Server.Steps.Phases.{
  Phase, counted, found, prepared, read_row, prepare, replaced, launched,
}

-- What the manager does without starting a server.
pub data Act (w : World) (m : Manager) : Manager → Type 0 where
  stop : (id : String) → Act w m (stop_server id m).1
  force_stop : (id : String) → Act w m (force_stop_server id m).1
  exit :
      (mon : Monitor) (r : WaitResult) (log : Option (List String))
      → Act w m (process_exited mon r log m)
  create :
      (id name version flavor : String) (port : ℕ) (made : Bool)
      → Act w m (add_server w id name version flavor port made m).1
  wipeout : (id : String) (removed : Bool) → Act w m (wipeout_server id removed m).1
  limits : (id : String) (cpu memory : ℤ) → Act w m (set_limits id cpu memory m).1
  heap : (id : String) (mb : ℤ) → Act w m (change_heap_mb id mb m).1
  schedule : (id text : String) → Act w m (set_restart_schedule id text m).1
  auto_sleep :
      (bound : Bool) (l : Launch) (id : String) (enabled : Bool) (minutes : ℤ)
      → Act w m (change_auto_sleep bound l id enabled minutes m).1
  auto_restart : (id : String) (enabled : Bool) → Act w m (change_auto_restart id enabled m).1
  go_to_sleep : (id : String) → Act w m (sleep id m).1
  proxies :
      (bound : String → Bool) (servers : List Server)
      → Act w m (start_sleep_proxies bound servers m)
  idle :
      (players : String → Option ℕ) (servers : List Server)
      → Act w m (check_idle_servers players servers m)
  tick : (seconds : ℕ) → m.now ≤ seconds → Act w m (record m { now = seconds })
  -- The end of a download, and an upgrade.
  mark_ready : (id : String) (ready : Bool) → Act w m (with_db m (set_server_ready id ready m.db))
  set_version :
      (id version flavor : String)
      → Act w m (with_db m (update_server_version id version flavor m.db))
  roll_back :
      (id : String) (old : Server) (existed : Bool) (reason : Reason)
      → Act w m (with_db m (rolled_row id old existed reason m.db))
  share : (id token : String) → Act w m (with_db m (set_share_token id token m.db))

-- A manager with the starts that are under way.
pub record Busy : Type 0 where
  pub manager : Manager
  pub under_way : List Phase

-- A start begins only while `k` others are under way at most.
pub data Step (w : World) (k : ℕ) (b : Busy) : Busy → Type 0 where
  act : (t : Manager) → Act w b.manager t → Step w k b (record b { manager = t })
  begin :
      (id : String)
      → is_full w b.manager ≡ false
      → length b.under_way ≤ k
      → Step w k b (record b { under_way = counted id ∷ b.under_way })
  read :
      (before later : List Phase) (id : String)
      → b.under_way ≡ before ++ counted id ∷ later
      → Step w k b (record b {
        under_way = before ++ replaced (read_row id (get_server id b.manager.db)) later;
      })
  go_on :
      (before later : List Phase) (l : Launch) (id : String) (s : Server)
      → b.under_way ≡ before ++ found id s ∷ later
      → Step w k b (record {
        manager = (prepare w l id s b.manager).1;
        under_way = before ++ replaced (prepare w l id s b.manager).0 later;
      })
  launch :
      (before later : List Phase) (l : Launch) (s : Server) (heap port : ℕ)
      → b.under_way ≡ before ++ prepared s heap port ∷ later
      → Step w k b
          (record { manager = launched l s heap port b.manager; under_way = before ++ later })

pub data Reach (w : World) (k : ℕ) (b : Busy) : Busy → Type 0 where
  here : Reach w k b b
  further : {c d : Busy} → Reach w k b c → Step w k c d → Reach w k b d
