-- ===== src/Server/Upgrade.antt =====
-- UpgradeServer and waitUntilReady of backend/server/upgrade.go: the manager with the jar of one server
-- and the one set aside. A jar is its bytes, and removing a file works.
pub mod Rounds
pub mod Rows
pub mod Rollback
pub mod Tests
use realmrunner.Common.{ℕ, String, Bool, true, false, not, ◌||◌, Option, none, some, List, [], ◌∷◌}
use realmrunner.Common.{if◌then◌else◌, str_eq}
use realmrunner.Common.Int.{ℤ, pos}
use realmrunner.Server.Store.{
  Status, stopped, crashed, sleeping, Reason, upgrade_failed, Server, Db, get_server,
  update_server_status, update_server_version, set_server_ready, record_exit,
}
use realmrunner.Server.Crash.{WaitResult, preflight_java}
use realmrunner.Server.Manager.State.{
  World, Launch, Monitor, Manager, Fault, Outcome, with_db, resting_status, set_resting,
}
use realmrunner.Server.Manager.Start.{start_server}
use realmrunner.Server.Manager.Stop.{force_stop_server, process_exited}

pub record Site : Type 0 where
  pub manager : Manager
  pub jar : Option (List ℕ)
  pub previous : Option (List ℕ)

-- One round of the loop of waitUntilReady: the processes that exited since the last one, and whether
-- the server answers on its control port.
pub record Probe : Type 0 where
  pub exits : List (Monitor × WaitResult × Option (List String))
  pub answers : Bool

-- What one upgrade meets: whether there is a provider for the flavor, the backup succeeds and the jar
-- can be renamed; the jar that the download leaves, and whether it succeeds; whether the version can
-- be recorded; the start; the rounds before the deadline; whether the old jar can be renamed back.
pub record Attempt : Type 0 where
  pub has_provider : Bool
  pub backed_up : Bool
  pub set_aside : Bool
  pub downloaded : Option (List ℕ)
  pub download_works : Bool
  pub recorded : Bool
  pub launch : Launch
  pub probes : List Probe
  pub renamed_back : Bool

pub data WaitFault : Type 0 where
  row_missing timed_out : WaitFault
  stopped_early : Reason → WaitFault

-- Where an upgrade failed that was rolled back.
pub data Stage : Type 0 where
  at_download at_record : Stage
  at_start : Fault → Stage
  at_wait : WaitFault → Stage

pub data Refusal : Type 0 where
  no_server not_stopped no_provider no_backup jar_stuck : Refusal
  no_java : Reason → Refusal

pub data Verdict : Type 0 where
  upgraded : Verdict
  rolled_back : Stage → Verdict
  not_begun : Refusal → Verdict

abbrev pub is_stopped_for_upgrade : Status → Bool
is_stopped_for_upgrade stopped = true
is_stopped_for_upgrade crashed = true
is_stopped_for_upgrade sleeping = true
is_stopped_for_upgrade _ = false

abbrev pub has_ended : Status → Bool
has_ended stopped = true
has_ended crashed = true
has_ended _ = false

unfoldable pub apply_exits : List (Monitor × WaitResult × Option (List String)) → Manager → Manager
unfolding process_exited
apply_exits [] m = m
apply_exits ((monitor, result, log) ∷ exits) m =
    apply_exits exits (process_exited monitor result log m)

-- The body of the loop of waitUntilReady, with what the later rounds give.
abbrev pub probed :
    Manager → Bool → Option WaitFault × Manager → Option Server → Option WaitFault × Manager
probed m answers later none = (some row_missing, m)
probed m answers later (some s) =
    if has_ended s.status
    then (some (stopped_early s.last_error), m)
    else if answers
    then (none, m)
    else later

unfoldable pub wait_loop : String → List Probe → Manager → Option WaitFault × Manager
unfolding apply_exits get_server
wait_loop id [] m = (some timed_out, m)
wait_loop id (p ∷ ps) m =
    let now = apply_exits p.exits m in
    probed now p.answers (wait_loop id ps now) (get_server id now.db)

abbrev waited : Option WaitFault × Manager → Option Server → Manager → Option WaitFault × Manager
waited result none m = (some row_missing, m)
waited result (some s) m = result

-- waitUntilReady
unfoldable pub wait_until_ready : String → List Probe → Manager → Option WaitFault × Manager
unfolding wait_loop get_server
wait_until_ready id probes m = waited (wait_loop id probes m) (get_server id m.db) m

abbrev pub is_present : Option (List ℕ) → Bool
is_present none = false
is_present (some jar) = true

-- The row that a rollback leaves.
abbrev pub rolled_row : String → Server → Bool → Reason → Db → Db
rolled_row id s existed reason db =
    let versioned = set_server_ready id existed (update_server_version id s.version s.flavor db) in
    record_exit id (pos 0) reason (update_server_status id (resting_status id versioned) versioned)

-- The jars that a rollback leaves.
abbrev pub jars_back : Bool → Bool → Option (List ℕ) → Option (List ℕ) × Option (List ℕ)
jars_back true true previous = (previous, none)
jars_back true false previous = (none, previous)
jars_back false renamed previous = (none, previous)

module _ (w : World) (a : Attempt) (text : Stage → String) (id version flavor : String) where
  -- The closure `rollback`
  unfoldable pub rollback : Server → Bool → Stage → Site → Verdict × Site
  unfolding update_server_version set_server_ready update_server_status resting_status record_exit
  rollback s existed stage site =
      let jars = jars_back existed a.renamed_back site.previous in
      (
        rolled_back stage,
        record {
          manager =
              with_db site.manager
                (rolled_row id s existed (upgrade_failed (text stage)) site.manager.db);
          jar = jars.0;
          previous = jars.1;
        },
      )

  abbrev pub after_wait : Server → Bool → Site → Option WaitFault × Manager → Verdict × Site
  after_wait s existed site (none, m) = (upgraded, record site { manager = m; previous = none })
  after_wait s existed site (some fault, m) =
      rollback s existed (at_wait fault) (record site { manager = (force_stop_server id m).1 })

  abbrev pub after_start : Server → Bool → Site → Outcome → Verdict × Site
  after_start s existed site (some fault, m) =
      rollback s existed (at_start fault) (record site { manager = m })
  after_start s existed site (none, m) =
      after_wait s existed (record site { manager = m }) (wait_until_ready id a.probes m)

  abbrev pub versioned_db : Db → Db
  versioned_db db = set_server_ready id true (update_server_version id version flavor db)

  -- From the download on.
  abbrev pub swapped : Server → Bool → Site → Verdict × Site
  swapped s existed site =
      let got = record site { jar = a.downloaded } in
      let m = with_db got.manager (versioned_db got.manager.db) in
      let rest =
        after_start s existed (record got { manager = m }) (start_server w a.launch id m) in
      if not a.download_works
      then rollback s existed at_download got
      else if not a.recorded
      then rollback s existed at_record got
      else rest

  -- Setting the jar aside.
  abbrev pub with_jar : Server → Site → Option (List ℕ) → Verdict × Site
  with_jar s site none = swapped s false (record site { previous = none })
  with_jar s site (some jar) =
      if a.set_aside
      then swapped s true (record site { jar = none; previous = some jar })
      else (not_begun jar_stuck, record site { previous = none })

  abbrev pub with_java : Server → Site → Option Reason → Verdict × Site
  with_java s site (some reason) = (not_begun (no_java reason), site)
  with_java s site none =
      let begun = with_jar s site site.jar in
      if not a.has_provider
      then (not_begun no_provider, site)
      else if not a.backed_up
      then (not_begun no_backup, site)
      else begun

  abbrev pub upgrade_found : Site → Option Server → Verdict × Site
  upgrade_found site none = (not_begun no_server, site)
  upgrade_found site (some s) =
      let checked = with_java s site (preflight_java w.java_overrides w.runtimes version) in
      if is_stopped_for_upgrade s.status then checked else (not_begun not_stopped, site)

-- UpgradeServer, where `flavor` is not empty.
unfoldable pub upgrade_to :
    World → Attempt → (Stage → String) → String → String → String → Site → Verdict × Site
unfolding rollback get_server start_server wait_until_ready preflight_java force_stop_server
    set_server_ready update_server_version
upgrade_to w a text id version flavor site =
    upgrade_found w a text id version flavor site (get_server id site.manager.db)

abbrev pub flavor_or : String → Option Server → String
flavor_or flavor none = flavor
flavor_or flavor (some s) = if str_eq flavor "" then s.flavor else flavor

-- UpgradeServer
unfoldable pub upgrade_server :
    World → Attempt → (Stage → String) → String → String → String → Site → Verdict × Site
unfolding upgrade_to get_server
upgrade_server w a text id version flavor site =
    upgrade_to w a text id version (flavor_or flavor (get_server id site.manager.db)) site
