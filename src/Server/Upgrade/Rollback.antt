-- ===== src/Server/Upgrade/Rollback.antt =====
-- What every end of UpgradeServer in backend/server/upgrade.go leaves.
use realmrunner.Common.{◌≡◌, ◌∙◌, refl, String, Bool, true, false, not, ap, ℕ}
use realmrunner.Common.{Option, none, some, List}
use realmrunner.Common.{if◌then◌else◌, str_eq}
use realmrunner.Server.Store.{Reason, upgrade_failed, Server, get_server}
use realmrunner.Server.Crash.{preflight_java}
use realmrunner.Server.Manager.State.{World, Manager, Outcome, with_db}
use realmrunner.Server.Manager.Start.{start_server}
use realmrunner.Server.Manager.Stop.{force_stop_server}
use realmrunner.Server.Upgrade.{
  Site, Attempt, WaitFault, Stage, Refusal, Verdict, upgraded, rolled_back, not_begun, is_present,
  jars_back, rollback, after_wait, after_start, versioned_db, swapped, with_jar, with_java,
  flavor_or, upgrade_to, upgrade_server, wait_until_ready, is_stopped_for_upgrade,
}
use realmrunner.Server.Upgrade.Rounds.{
  HasVersion, start_server-HasVersion, force_stop_server-HasVersion, wait_until_ready-HasVersion,
}
use realmrunner.Server.Upgrade.Rows.{
  IsBack, rolled_row-IsBack, get_server-update_server_version, get_server-set_server_ready,
}

jars_back-jar :
    (jar : Option (List ℕ)) (renamed : Bool) (previous : Option (List ℕ))
    → renamed ≡ true
    → previous ≡ jar
    → jars_back (is_present jar) renamed previous ≡ (jar, none)
jars_back-jar none renamed previous r e = ap (λ p. (none, p)) e
jars_back-jar (some x) renamed previous r e =
    ap (λ b. jars_back true b previous) r ∙ ap (λ p. (p, none)) e

module _ (w : World) (a : Attempt) (text : Stage → String) (id version flavor : String)
    (old : Server) (jar : Option (List ℕ)) (m : Manager) where
  abbrev started : Outcome
  started = start_server w a.launch id (with_db m (versioned_db w a text id version flavor m.db))

  -- How an upgrade from the manager `m` and this jar ends.
  abbrev pub IsEnd : Verdict → Site → Type 0
  IsEnd upgraded t =
      (t.jar ≡ a.downloaded)
      × (t.previous ≡ none)
      × HasVersion id version flavor t.manager.db
      × (started.0 ≡ none)
      × ((wait_until_ready id a.probes started.1).0 ≡ none)
  IsEnd (rolled_back stage) t =
      (t.jar ≡ jar)
      × (t.previous ≡ none)
      × IsBack id old (is_present jar) (upgrade_failed (text stage)) t.manager.db
  IsEnd (not_begun r) t = (t.manager ≡ m) × (t.jar ≡ jar)

  abbrev pub IsEndOf : Verdict × Site → Type 0
  IsEndOf r = IsEnd r.0 r.1

  rollback-IsEnd :
      (stage : Stage) (site : Site) (v f : String)
      → a.renamed_back ≡ true
      → site.previous ≡ jar
      → HasVersion id v f site.manager.db
      → IsEndOf (rollback w a text id version flavor old (is_present jar) stage site)
  unfolding rollback
  rollback-IsEnd stage site v f back kept (s, e, _, _) =
      let jars = jars_back-jar jar a.renamed_back site.previous back kept in
      (
        ap (λ x. x.0) jars,
        ap (λ x. x.1) jars,
        rolled_row-IsBack id old (is_present jar) (upgrade_failed (text stage)) site.manager.db s e,
      )

  after_wait-IsEnd :
      (site : Site)
      → a.renamed_back ≡ true
      → site.previous ≡ jar
      → site.jar ≡ a.downloaded
      → (started.0 ≡ none)
      → HasVersion id version flavor site.manager.db
      → (r : Option WaitFault × Manager) → wait_until_ready id a.probes started.1 ≡ r
      → HasVersion id version flavor r.1.db
      → IsEndOf (after_wait w a text id version flavor old (is_present jar) site r)
  after_wait-IsEnd site back kept got ok h (none, n) e k = (got, refl, k, ok, ap (λ x. x.0) e)
  after_wait-IsEnd site back kept got ok h (some fault, n) e k =
      rollback-IsEnd (Stage.at_wait fault) (record site { manager = (force_stop_server id n).1 })
        version flavor back kept (force_stop_server-HasVersion id version flavor id n k)

  after_start-IsEnd :
      (site : Site)
      → a.renamed_back ≡ true
      → site.previous ≡ jar
      → site.jar ≡ a.downloaded
      → (r : Outcome) → started ≡ r
      → HasVersion id version flavor r.1.db
      → IsEndOf (after_start w a text id version flavor old (is_present jar) site r)
  after_start-IsEnd site back kept got (some fault, n) e k =
      rollback-IsEnd (Stage.at_start fault) (record site { manager = n }) version flavor back kept k
  after_start-IsEnd site back kept got (none, n) e k =
      after_wait-IsEnd (record site { manager = n }) back kept got (ap (λ x. x.0) e) k
        (wait_until_ready id a.probes n) (ap (λ x. wait_until_ready id a.probes x.1) e)
        (wait_until_ready-HasVersion id version flavor id a.probes n k)

  if-IsEnd :
      (b : Bool) (x y : Verdict × Site) → IsEndOf x → IsEndOf y → IsEndOf (if b then x else y)
  if-IsEnd true x y p q = p
  if-IsEnd false x y p q = q

  abbrev site_of : Option (List ℕ) → Option (List ℕ) → Site
  site_of j previous = record { manager = m; jar = j; previous = previous }

  began-HasVersion :
      get_server id m.db ≡ some old
      → HasVersion id version flavor (versioned_db w a text id version flavor m.db)
  began-HasVersion e = (
    record old { version = version; flavor = flavor; ready = true },
    rw (get_server-set_server_ready, get_server-update_server_version, e) refl,
    refl,
    refl,
  )

  swapped-IsEnd :
      (j previous : Option (List ℕ))
      → a.renamed_back ≡ true
      → previous ≡ jar
      → get_server id m.db ≡ some old
      → IsEndOf (swapped w a text id version flavor old (is_present jar) (site_of j previous))
  swapped-IsEnd j previous back kept e =
      let got = site_of a.downloaded previous in
      let before : HasVersion id old.version old.flavor m.db = (old, e, refl, refl) in
      let begun = with_db m (versioned_db w a text id version flavor m.db) in
      let existed = is_present jar in
      let rest =
        after_start w a text id version flavor old existed (record got { manager = begun })
          (start_server w a.launch id begun) in
      let failed_record = rollback w a text id version flavor old existed Stage.at_record got in
      if-IsEnd (not a.download_works)
        (rollback w a text id version flavor old existed Stage.at_download got)
        (if not a.recorded then failed_record else rest)
        (rollback-IsEnd Stage.at_download got old.version old.flavor back kept before)
        (if-IsEnd (not a.recorded) failed_record rest
          (rollback-IsEnd Stage.at_record got old.version old.flavor back kept before)
          (after_start-IsEnd (record got { manager = begun }) back kept refl
            (start_server w a.launch id begun) refl
            (start_server-HasVersion id version flavor w a.launch id begun (began-HasVersion e))))

module _ (w : World) (a : Attempt) (text : Stage → String) (id version flavor : String) where
  with_jar-IsEnd :
      (old : Server) (m : Manager) (jar previous j : Option (List ℕ))
      → a.renamed_back ≡ true
      → get_server id m.db ≡ some old
      → jar ≡ j
      → IsEndOf w a text id version flavor old j m (
          with_jar w a text id version flavor old
            (record { manager = m; jar = jar; previous = previous })
            j)
  with_jar-IsEnd old m jar previous none back e same =
      swapped-IsEnd w a text id version flavor old none m jar none back refl e
  with_jar-IsEnd old m jar previous (some x) back e same =
      if-IsEnd w a text id version flavor old (some x) m a.set_aside
        (swapped w a text id version flavor old true
          (record { manager = m; jar = none; previous = some x }))
        (not_begun Refusal.jar_stuck, record { manager = m; jar = jar; previous = none })
        (swapped-IsEnd w a text id version flavor old (some x) m none (some x) back refl e)
        (refl, same)

  with_java-IsEnd :
      (old : Server) (site : Site) (reason : Option Reason)
      → a.renamed_back ≡ true
      → get_server id site.manager.db ≡ some old
      → IsEndOf w a text id version flavor old site.jar site.manager
          (with_java w a text id version flavor old site reason)
  with_java-IsEnd old site (some reason) back e = (refl, refl)
  with_java-IsEnd old site none back e =
      let begun = with_jar w a text id version flavor old site site.jar in
      if-IsEnd w a text id version flavor old site.jar site.manager (not a.has_provider)
        (not_begun Refusal.no_provider, site)
        (if not a.backed_up then (not_begun Refusal.no_backup, site) else begun) (refl, refl)
        (if-IsEnd w a text id version flavor old site.jar site.manager (not a.backed_up)
          (not_begun Refusal.no_backup, site) begun (refl, refl)
          (with_jar-IsEnd old site.manager site.jar site.previous site.jar back e refl))

  upgrade_to-IsEnd :
      (old : Server) (site : Site)
      → a.renamed_back ≡ true
      → get_server id site.manager.db ≡ some old
      → IsEnd w a text id version flavor old site.jar site.manager
          (upgrade_to w a text id version flavor site).0
          (upgrade_to w a text id version flavor site).1
  unfolding upgrade_to
  upgrade_to-IsEnd old site back e = rw e (
      if-IsEnd w a text id version flavor old site.jar site.manager
        (is_stopped_for_upgrade old.status)
        (with_java w a text id version flavor old site
          (preflight_java w.java_overrides w.runtimes version))
        (not_begun Refusal.not_stopped, site)
        (with_java-IsEnd old site (preflight_java w.java_overrides w.runtimes version) back e)
        (refl, refl))

  upgrade_server-upgrade_to :
      (old : Server) (site : Site)
      → get_server id site.manager.db ≡ some old
      → upgrade_server w a text id version flavor site
        ≡ upgrade_to w a text id version (if str_eq flavor "" then old.flavor else flavor) site
  unfolding upgrade_server
  upgrade_server-upgrade_to old site e =
      ap (λ s. upgrade_to w a text id version (flavor_or flavor s) site) e

-- Every end of an upgrade of a server that is in the table, where the jar that was set aside can be
-- renamed back. An upgrade that succeeds leaves the downloaded jar and the new version and flavor,
-- the old flavor where none is given, after a start without an error and a wait in which the server
-- answered. One that was rolled back leaves the jar, version and flavor from before, the server resting, ready if it had a jar, and with
-- the failure as its last error. One that was refused leaves the jar and the manager as they were.
pub upgrade_server-IsEnd :
    (w : World) (a : Attempt) (text : Stage → String) (id version flavor : String) (old : Server)
    (site : Site)
    → a.renamed_back ≡ true
    → get_server id site.manager.db ≡ some old
    → IsEnd w a text id version
        (if str_eq flavor "" then old.flavor else flavor)
        old
        site.jar
        site.manager
        (upgrade_server w a text id version flavor site).0
        (upgrade_server w a text id version flavor site).1
upgrade_server-IsEnd w a text id version flavor old site back e =
    rw (upgrade_server-upgrade_to w a text id version flavor old site e) (
      upgrade_to-IsEnd w a text id version (if str_eq flavor "" then old.flavor else flavor) old
        site back e)
