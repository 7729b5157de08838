-- ===== src/Server/Steps/Keeping.antt =====
-- The other operations of backend/server that the manager's steps run, on a table predicate that the
-- statements of backend/server/db.go keep.
use realmrunner.Common.{
  ℕ, ◌-◌, ◌≡◌, refl, inl, inr, String, Bool, true, false, ◌&&◌, not, Option, none, some, List,
}
use realmrunner.Common.{leb, if◌then◌else◌, Bool-cases}
use realmrunner.Common.Int.{ℤ}
use realmrunner.Common.Assoc.{Assoc, lookup}
use realmrunner.Server.Store.{
  Server, Db, Reason, gave_up, stopping, crashed, is_running, get_server, port_exists,
  create_server,
}
use realmrunner.Server.Crash.{WaitResult, next, stable_uptime}
use realmrunner.Server.Manager.State.{
  World, Monitor, Manager, Fault, port_out_of_range, port_taken, Outcome, set_resting,
}
use realmrunner.Server.Manager.Stop.{
  can_stop, can_force_stop, release_process, stop_found, stop_server, force_stop_found,
  force_stop_server, schedule_restart, crash_found, log_reason, or_description, crash_recorded,
  handle_crash, has_handle, process_exited,
}
use realmrunner.Server.Manager.Admin.{
  new_server, inserted, add_server, wipeout_found, wipeout_server, is_down, limits_found,
  set_limits, heap_fault, heap_checked, heap_found, change_heap_mb, set_restart_schedule,
}
use realmrunner.Server.Steps.Closure.{
  Updated, Closed, status-closed, record_exit-closed, limits-closed, heap_mb-closed,
  schedule-closed, set_resting-closed,
}

module _ {P : Db → Type 0} (c : Updated P) where
  release_process-keeps :
      (id : String) (m : Manager) (h : Option ℕ) → P m.db → P (release_process id m h).db
  unfolding release_process
  release_process-keeps id m none p = p
  release_process-keeps id m (some h) p = p

  stop_found-keeps :
      (id : String) (m : Manager) (s : Option Server) → P m.db → P (stop_found id m s).1.db
  stop_found-keeps id m none p = p
  stop_found-keeps id m (some s) p = elim (Bool-cases (can_stop s.status)) [
    | inl e ↦ rw e (
        set_resting-closed c id _
          (release_process-keeps id _ _ (status-closed c id stopping m.db refl p)))
    | inr e ↦ rw e p
  ]

  pub stop_server-keeps : (id : String) (m : Manager) → P m.db → P (stop_server id m).1.db
  unfolding stop_server
  stop_server-keeps id m = stop_found-keeps id m (get_server id m.db)

  force_stop_found-keeps :
      (id : String) (m : Manager) (s : Option Server) → P m.db → P (force_stop_found id m s).1.db
  force_stop_found-keeps id m none p = p
  force_stop_found-keeps id m (some s) p = elim (Bool-cases (can_force_stop s.status)) [
    | inl e ↦ rw e (set_resting-closed c id _ (release_process-keeps id m _ p))
    | inr e ↦ rw e p
  ]

  pub force_stop_server-keeps :
      (id : String) (m : Manager) → P m.db → P (force_stop_server id m).1.db
  unfolding force_stop_server
  force_stop_server-keeps id m = force_stop_found-keeps id m (get_server id m.db)

  schedule_restart-keeps :
      (id : String) (code : ℤ) (reason : Reason) (m : Manager) (a : Option ℕ × Assoc ℕ)
      → P m.db
      → P (schedule_restart id code reason m a).db
  schedule_restart-keeps id code reason m (none, rest) p =
      record_exit-closed c id code (gave_up reason) m.db p
  schedule_restart-keeps id code reason m (some d, rest) p = p

  crash_found-keeps :
      (id : String) (code : ℤ) (found : Option Reason) (m : Manager) (s : Option Server)
      → P m.db
      → P (crash_found id code found m s).db
  crash_found-keeps id code found m none p = p
  crash_found-keeps id code found m (some s) p =
      let reason = or_description found (lookup id m.exit_descriptions) code in
      let recorded =
        record_exit-closed c id code reason _ (status-closed c id crashed m.db refl p) in
      let after = crash_recorded id code reason found m in
      elim (Bool-cases s.auto_restart) [
        | inl e ↦ rw e (schedule_restart-keeps id code reason after (next id m.attempts) recorded)
        | inr e ↦ rw e recorded
      ]

  pub handle_crash-keeps :
      (id : String) (code : ℤ) (log : Option (List String)) (m : Manager)
      → P m.db
      → P (handle_crash id code log m).db
  unfolding handle_crash
  handle_crash-keeps id code log m =
      crash_found-keeps id code (log_reason log) m (get_server id m.db)

  pub process_exited-keeps :
      (mon : Monitor) (result : WaitResult) (log : Option (List String)) (m : Manager)
      → P m.db
      → P (process_exited mon result log m).db
  unfolding process_exited set_resting
  process_exited-keeps mon result log m p =
      elim (Bool-cases (has_handle mon.handle m.stop_requested)) [
        | inl e ↦ rw e (set_resting-closed c mon.id m p)
        | inr e ↦ elim (Bool-cases (leb stable_uptime (m.now - mon.started_at))) [
          | inl f ↦ rw e (rw f (handle_crash-keeps mon.id _ log _ p))
          | inr f ↦ rw e (rw f (handle_crash-keeps mon.id _ log _ p))
        ]
      ]

module _ {P : Db → Type 0} (c : Closed P) where
  if-keeps : (b : Bool) (x y : Outcome) → P x.1.db → P y.1.db → P (if b then x else y).1.db
  if-keeps true x y p q = p
  if-keeps false x y p q = q

  inserted-keeps :
      (id : String) (made : Bool) (m : Manager) (db : Option Db)
      → P m.db
      → ((d : Db) → db ≡ some d → P d)
      → P (inserted id made m db).1.db
  inserted-keeps id true m none p q = p
  inserted-keeps id false m none p q = p
  inserted-keeps id true m (some d) p q = q d refl
  inserted-keeps id false m (some d) p q = c.deleted id d (q d refl)

  pub add_server-keeps :
      (w : World) (id name version flavor : String) (port : ℕ) (made : Bool) (m : Manager)
      → P m.db
      → P (add_server w id name version flavor port made m).1.db
  unfolding add_server new_server
  add_server-keeps w id name version flavor port made m p =
      let s = new_server id name version flavor port m.now in
      let result = inserted id made m (create_server s m.db) in
      let taken = if port_exists port m.db then (some port_taken, m) else result in
      if-keeps (not (leb w.port_min port && leb port w.port_max)) (some port_out_of_range, m) taken
        p
        (if-keeps (port_exists port m.db) (some port_taken, m) result p
          (inserted-keeps id made m (create_server s m.db) p (λ d e. c.created s m.db d refl e p)))

  wipeout_found-keeps :
      (id : String) (removed : Bool) (m : Manager) (s : Option Server)
      → P m.db
      → P (wipeout_found id removed m s).1.db
  wipeout_found-keeps id removed m none p = p
  wipeout_found-keeps id true m (some s) p = elim (Bool-cases (is_running s.status)) [
    | inl e ↦ rw e p
    | inr e ↦ rw e (c.deleted id m.db p)
  ]
  wipeout_found-keeps id false m (some s) p = elim (Bool-cases (is_running s.status)) [
    | inl e ↦ rw e p
    | inr e ↦ rw e p
  ]

  pub wipeout_server-keeps :
      (id : String) (removed : Bool) (m : Manager) → P m.db → P (wipeout_server id removed m).1.db
  unfolding wipeout_server
  wipeout_server-keeps id removed m = wipeout_found-keeps id removed m (get_server id m.db)

module _ {P : Db → Type 0} (c : Updated P) where
  limits_found-keeps :
      (id : String) (cpu memory : ℤ) (m : Manager) (s : Option Server)
      → P m.db
      → P (limits_found id cpu memory m s).1.db
  limits_found-keeps id cpu memory m none p = p
  limits_found-keeps id cpu memory m (some s) p = elim (Bool-cases (is_down s.status)) [
    | inl e ↦ rw e (limits-closed c id cpu memory m.db p)
    | inr e ↦ rw e p
  ]

  pub set_limits-keeps :
      (id : String) (cpu memory : ℤ) (m : Manager) → P m.db → P (set_limits id cpu memory m).1.db
  unfolding set_limits
  set_limits-keeps id cpu memory m = limits_found-keeps id cpu memory m (get_server id m.db)

  heap_checked-keeps :
      (id : String) (heap : ℤ) (m : Manager) (f : Option Fault)
      → P m.db
      → P (heap_checked id heap m f).1.db
  heap_checked-keeps id heap m none p = heap_mb-closed c id heap m.db p
  heap_checked-keeps id heap m (some f) p = p

  heap_found-keeps :
      (id : String) (heap : ℤ) (m : Manager) (s : Option Server)
      → P m.db
      → P (heap_found id heap m s).1.db
  heap_found-keeps id heap m none p = p
  heap_found-keeps id heap m (some s) p = heap_checked-keeps id heap m (heap_fault heap s) p

  pub change_heap_mb-keeps :
      (id : String) (heap : ℤ) (m : Manager) → P m.db → P (change_heap_mb id heap m).1.db
  unfolding change_heap_mb
  change_heap_mb-keeps id heap m = heap_found-keeps id heap m (get_server id m.db)

  pub set_restart_schedule-keeps :
      (id text : String) (m : Manager) → P m.db → P (set_restart_schedule id text m).1.db
  unfolding set_restart_schedule
  set_restart_schedule-keeps id text m = schedule-closed c id text m.db
