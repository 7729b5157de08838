-- ===== src/Server/Steps/Limit.antt =====
-- The limit on running servers of backend/server/manager.go along the steps of the manager, where
-- starts overlap.
use realmrunner.Common.{
  ℕ, suc, ◌≤◌, ◌+◌, ◌≡◌, refl, ap, String, false, Option, none, some, arith, List, [], ◌∷◌, ◌++◌,
  length, length-append,
}
use realmrunner.Server.Store.{
  Db, Server, Status, running, is_running, has_id, port_exists, get_server, count_running,
  update_server_status, update_server_version,
}
use realmrunner.Server.Store.Laws.{
  IsTable, update_where-IsTable, delete_server-IsTable, create_server-IsTable,
}
use realmrunner.Server.Store.Counting.{
  count_running-update_where, count_running-update_where_le, count_running-delete_server,
  count_running-create_server,
}
use realmrunner.Server.Manager.State.{World, Launch, Manager, set_resting}
use realmrunner.Server.Manager.Start.{adopt_process, spawn}
use realmrunner.Server.Sleep.Proxy.{orphaned_to_stopped, cleanup_orphaned_statuses, boot}
use realmrunner.Server.Steps.{Busy, Step, act, begin, read, go_on, launch, Reach, here, further}
use realmrunner.Server.Steps.Phases.{Phase, counted, found, prepared, read_row, prepare, replaced}
use realmrunner.Server.Steps.Closure.{
  Updated, Closed, set_resting-closed, clear_last_error-closed, last_started-closed,
}
use realmrunner.Server.Steps.Starting.{prepare-keeps}
use realmrunner.Server.Steps.Acting.{Act-keeps}

-- A table with room for `k` more running servers under the limit `n`.
abbrev Within : ℕ → ℕ → Db → Type 0
Within k n db = IsTable db × (k + count_running db ≤ n)

Within-Updated : (k n : ℕ) → Updated (Within k n)
Within-Updated k n = record {
  updated = λ id f db q (t, h). (
    update_where-IsTable id f q.keeps db t,
    ground (arith, h, count_running-update_where_le id f db q.starts_none),
  );
}

Within-Closed : (k n : ℕ) → Closed (Within k n)
Within-Closed k n =
    unfold update_server_version in
    record {
      updates = Within-Updated k n;
      created = λ s db db' down e (t, h). (
        create_server-IsTable s db db' t e,
        ground (arith, h, count_running-create_server s db db' down e),
      );
      deleted = λ id db (t, h).
          (delete_server-IsTable id db t, ground (arith, h, count_running-delete_server id db));
      versioned = λ id version flavor db (t, h). (
        update_where-IsTable id (λ s. record s { version = version; flavor = flavor })
            (record { id_kept = λ s. refl; port_kept = λ s. refl }) db t,
        ground (
          arith,
          h,
          count_running-update_where_le id (λ s. record s { version = version; flavor = flavor }) db
              (λ s e. e),
        ),
      );
    }

run-Within :
    (k n : ℕ) (id : String) (db : Db)
    → Within (suc k) n db
    → Within k n (update_server_status id running db)
unfolding update_server_status
run-Within k n id db (t, h) = (
  update_where-IsTable id (λ s. record s { status = running })
      (record { id_kept = λ s. refl; port_kept = λ s. refl }) db t,
  ground (arith, h, count_running-update_where id (λ s. record s { status = running }) db t),
)

less-Within : (k n : ℕ) (db : Db) → Within (suc k) n db → Within k n db
less-Within k n db (t, h) = (t, omega arith)

-- The last piece of a start takes the place of the start in the table.
launched-Within :
    (k n : ℕ) (l : Launch) (s : Server) (heap port : ℕ) (pid : Option ℕ) (m : Manager)
    → Within (suc k) n m.db
    → Within k n (spawn s heap port pid m).1.db
unfolding adopt_process set_resting
launched-Within k n l s heap port none m p =
    set_resting-closed (Within-Updated k n) s.id m (less-Within k n m.db p)
launched-Within k n l s heap port (some pid) m p =
    clear_last_error-closed (Within-Updated k n) s.id _
      (last_started-closed (Within-Updated k n) s.id m.now _ (run-Within k n s.id m.db p))

-- A start that goes on or ends takes no more places than before.
replaced-Within :
    (before later : List Phase) (old : Phase) (p : Option Phase) (n : ℕ) (db : Db)
    → Within (length (before ++ old ∷ later)) n db
    → Within (length (before ++ replaced p later)) n db
replaced-Within before later old none n db (t, h) =
    (t, omega (arith, length-append before (old ∷ later), length-append before later))
replaced-Within before later old (some p) n db (t, h) =
    (t, omega (arith, length-append before (old ∷ later), length-append before (p ∷ later)))

-- The running servers and the starts under way are `n` at most.
abbrev IsLimited : ℕ → Busy → Type 0
IsLimited n b = Within (length b.under_way) n b.manager.db

taken :
    (n : ℕ) (b : Busy) (phases : List Phase)
    → b.under_way ≡ phases
    → IsLimited n b
    → Within (length phases) n b.manager.db
taken n b phases e p = rw e at p

Step-IsLimited :
    (w : World) (k : ℕ) {b c : Busy}
    → Step w k b c
    → IsLimited (w.max_running + k) b
    → IsLimited (w.max_running + k) c
Step-IsLimited w k {b} (act t a) p =
    Act-keeps (Within-Closed (length b.under_way) (w.max_running + k)) a p
Step-IsLimited w k {b} (begin id room few) (t, h) = (t, ground (arith, room, few))
Step-IsLimited w k {b} (read before later id e) p =
    replaced-Within before later (counted id) (read_row id (get_server id b.manager.db))
      (w.max_running + k) b.manager.db (taken (w.max_running + k) b _ e p)
Step-IsLimited w k {b} (go_on before later l id s e) p =
    let n = w.max_running + k in
    let now = prepare w l id s b.manager in
    replaced-Within before later (found id s) now.0 n now.1.db
      (prepare-keeps (Within-Updated _ n) l w id s b.manager (taken n b _ e p))
Step-IsLimited w k {b} (launch before later l s heap port e) (t, h) =
    let n = w.max_running + k in
    launched-Within (length (before ++ later)) n l s heap port l.pid b.manager (
      t,
      omega (
        arith,
        ap length e,
        length-append before (prepared s heap port ∷ later),
        length-append before later,
      ),
    )

Reach-IsLimited :
    (w : World) (k : ℕ) {b c : Busy}
    → Reach w k b c
    → IsLimited (w.max_running + k) b
    → IsLimited (w.max_running + k) c
Reach-IsLimited w k here p = p
Reach-IsLimited w k (further before last) p = Step-IsLimited w k last (Reach-IsLimited w k before p)

has_id-cleanup : (id : String) (db : Db) → has_id id (cleanup_orphaned_statuses db) ≡ has_id id db
unfolding has_id cleanup_orphaned_statuses
has_id-cleanup id [] = refl
has_id-cleanup id (s ∷ db) = ground (arith, has_id-cleanup id db)

port_exists-cleanup :
    (p : ℕ) (db : Db) → port_exists p (cleanup_orphaned_statuses db) ≡ port_exists p db
unfolding port_exists cleanup_orphaned_statuses
port_exists-cleanup p [] = refl
port_exists-cleanup p (s ∷ db) = ground (arith, port_exists-cleanup p db)

cleanup-IsTable : (db : Db) → IsTable db → IsTable (cleanup_orphaned_statuses db)
unfolding cleanup_orphaned_statuses
cleanup-IsTable [] t = tt
cleanup-IsTable (s ∷ db) (i, p, t) =
    rw (has_id-cleanup s.id db, port_exists-cleanup s.port db) (i, p, cleanup-IsTable db t)

not_orphaned : (s : Status) → is_running (orphaned_to_stopped s) ≡ false
not_orphaned s = ground arith

count_running-cleanup : (db : Db) → count_running (cleanup_orphaned_statuses db) ≡ 0
unfolding count_running cleanup_orphaned_statuses
count_running-cleanup [] = refl
count_running-cleanup (s ∷ db) = rw (not_orphaned s.status) (count_running-cleanup db)

-- Whatever statuses the last run left in a table with unique ids and ports: as long as no start begins
-- while more than `k` others are under way, the running servers and the starts under way are never
-- more than `max_running + k`, whatever requests, process exits, idle checks and upgrades come between
-- the pieces of a start. So `max_running` holds where each start ends before the next one begins.
pub boot-limit :
    (w : World) (k : ℕ) (db : Db) (now : ℕ) (b : Busy)
    → IsTable db
    → Reach w k (record { manager = boot db now; under_way = [] }) b
    → count_running b.manager.db + length b.under_way ≤ w.max_running + k
unfolding boot
boot-limit w k db now b table r =
    let (_, h) =
      Reach-IsLimited w k r (cleanup-IsTable db table, ground (arith, count_running-cleanup db)) in
    omega arith
