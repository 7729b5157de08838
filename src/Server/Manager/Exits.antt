-- ===== src/Server/Manager/Exits.antt =====
-- monitorProcess of backend/server/manager.go and handleCrash of backend/server/crash.go: what
-- follows from the exit of a process.
use realmrunner.Common.{
  ℕ, ◌+◌, ◌-◌, ◌≡◌, ◌∙◌, refl, ap, inl, inr, String, true, false, Option, none, some, List, ◌∷◌,
}
use realmrunner.Common.{leb, if◌then◌else◌, str_eq_refl, Bool-cases}
use realmrunner.Common.Int.{ℤ}
use realmrunner.Common.Assoc.{Assoc, lookup, erase, lookup-erase}
use realmrunner.Server.Store.{
  stopped, sleeping, crashed, Reason, gave_up, Server, get_server, update_server_status,
}
use realmrunner.Server.Store.Columns.{
  get_server-id, status_of, status_of-set, status_of-record_exit,
}
use realmrunner.Server.Crash.{
  WaitResult, restart_delays, delay_at, stable_uptime, count, next, reset, exit_code_of,
}
use realmrunner.Server.Crash.Backoff.{next-delay, count-reset}
use realmrunner.Server.Manager.State.{Monitor, Manager, set_resting}
use realmrunner.Server.Manager.Stop.{
  schedule_restart, crash_found, log_reason, or_description, crash_recorded, handle_crash,
  has_handle, exit_noted, process_exited,
}
use realmrunner.Server.Manager.Stopping.{set_resting-found}

abbrev pub with_restart : String → ℕ → Option ℕ → List (String × ℕ) → List (String × ℕ)
with_restart id now none due = due
with_restart id now (some delay) due = (id, now + delay) ∷ due

schedule_restart-due :
    (id : String) (code : ℤ) (reason : Reason) (m : Manager) (a : Option ℕ × Assoc ℕ)
    → (schedule_restart id code reason m a).restarts_due ≡ with_restart id m.now a.0 m.restarts_due
schedule_restart-due id code reason m (none, t) = refl
schedule_restart-due id code reason m (some d, t) = refl

schedule_restart-status :
    (id : String) (code : ℤ) (reason : Reason) (m : Manager) (a : Option ℕ × Assoc ℕ)
    → status_of id (schedule_restart id code reason m a).db ≡ status_of id m.db
schedule_restart-status id code reason m (none, t) =
    status_of-record_exit id code (gave_up reason) id m.db
schedule_restart-status id code reason m (some d, t) = refl

-- What is due after a crash with the tracker at `k`.
abbrev pub due_after : Server → ℕ → ℕ → List (String × ℕ) → List (String × ℕ)
due_after s k now due =
    with_restart s.id now (if s.auto_restart then delay_at k restart_delays else none) due

crash_found-due :
    (id : String) (code : ℤ) (found : Option Reason) (m : Manager) (s : Server)
    → s.id ≡ id
    → (crash_found id code found m (some s)).restarts_due
      ≡ due_after s (count id m.attempts) m.now m.restarts_due
crash_found-due id code found m s e =
    let reason = or_description found (lookup id m.exit_descriptions) code in
    let after = crash_recorded id code reason found m in
    elim (Bool-cases s.auto_restart) [
      | inl a ↦
          rw (a, e)
            (schedule_restart-due id code reason after (next id m.attempts)
              ∙ rw (next-delay id m.attempts) refl)
      | inr a ↦ rw a refl
    ]

crash_found-status :
    (id : String) (code : ℤ) (found : Option Reason) (m : Manager) (s : Server)
    → status_of id m.db ≡ some s.status
    → status_of id (crash_found id code found m (some s)).db ≡ some crashed
crash_found-status id code found m s e =
    let reason = or_description found (lookup id m.exit_descriptions) code in
    let after = crash_recorded id code reason found m in
    let down : status_of id after.db ≡ some crashed =
      status_of-record_exit id code reason id (update_server_status id crashed m.db)
      ∙ status_of-set id crashed m.db s.status e in
    elim (Bool-cases s.auto_restart) [
      | inl a ↦ rw a (schedule_restart-status id code reason after (next id m.attempts) ∙ down)
      | inr a ↦ rw a down
    ]

handle_crash-lem :
    (id : String) (code : ℤ) (log : Option (List String)) (m : Manager) (s : Server)
    → get_server id m.db ≡ some s
    → (status_of id (handle_crash id code log m).db ≡ some crashed)
      × ((handle_crash id code log m).restarts_due
          ≡ due_after s (count id m.attempts) m.now m.restarts_due)
unfolding handle_crash
handle_crash-lem id code log m s e =
    let known : status_of id m.db ≡ some s.status = rw e refl in
    let due = crash_found-due id code (log_reason log) m s (get_server-id id m.db s e) in
    rw e (crash_found-status id code (log_reason log) m s known, due)

-- The exit of a process that was asked to stop brings its server to rest and schedules no restart.
pub process_exited_requested :
    (mon : Monitor) (result : WaitResult) (log : Option (List String)) (m : Manager) (s : Server)
    → get_server mon.id m.db ≡ some s
    → has_handle mon.handle m.stop_requested ≡ true
    → (get_server mon.id (process_exited mon result log m).db
        ≡ some (record s { status = if s.auto_sleep then sleeping else stopped }))
      × ((process_exited mon result log m).restarts_due ≡ m.restarts_due)
unfolding process_exited set_resting
process_exited_requested mon result log m s e h =
    rw h (set_resting-found mon.id (exit_noted mon result m) s e, refl)

-- The exit of a process that was not asked to stop marks its server `crashed`, whatever the exit
-- code. Where the server restarts by itself, a restart is scheduled after the delay that the crash
-- tracker's count selects; for a process that ran ten minutes that count is 0 again. With a count of
-- five or more, and where the server does not restart by itself, no restart is scheduled.
pub process_exited_crashed :
    (mon : Monitor) (result : WaitResult) (log : Option (List String)) (m : Manager) (s : Server)
    → get_server mon.id m.db ≡ some s
    → has_handle mon.handle m.stop_requested ≡ false
    → (status_of mon.id (process_exited mon result log m).db ≡ some crashed)
      × ((process_exited mon result log m).restarts_due
          ≡ due_after s
              (if leb stable_uptime (m.now - mon.started_at) then 0 else count mon.id m.attempts)
              m.now
              m.restarts_due)
unfolding process_exited
process_exited_crashed mon result log m s e h =
    elim (Bool-cases (leb stable_uptime (m.now - mon.started_at))) [
      | inl f ↦
          let cleared = record (exit_noted mon result m) { attempts = reset mon.id m.attempts } in
          let (down, due) = handle_crash-lem mon.id (exit_code_of result) log cleared s e in
          rw h (rw f (down, due ∙ rw (count-reset mon.id m.attempts) refl))
      | inr f ↦
          rw h
            (rw f (handle_crash-lem mon.id (exit_code_of result) log (exit_noted mon result m) s e))
    ]

schedule_restart-processes :
    (id : String) (code : ℤ) (reason : Reason) (m : Manager) (a : Option ℕ × Assoc ℕ)
    → (schedule_restart id code reason m a).processes ≡ m.processes
schedule_restart-processes id code reason m (none, t) = refl
schedule_restart-processes id code reason m (some d, t) = refl

crash_found-processes :
    (id : String) (code : ℤ) (found : Option Reason) (m : Manager) (s : Option Server)
    → (crash_found id code found m s).processes ≡ m.processes
crash_found-processes id code found m none = refl
crash_found-processes id code found m (some s) =
    let reason = or_description found (lookup id m.exit_descriptions) code in
    elim (Bool-cases s.auto_restart) [
      | inl a ↦ rw a (
          schedule_restart-processes id code reason (crash_recorded id code reason found m)
            (next id m.attempts))
      | inr a ↦ rw a refl
    ]

handle_crash-processes :
    (id : String) (code : ℤ) (log : Option (List String)) (m : Manager)
    → (handle_crash id code log m).processes ≡ m.processes
unfolding handle_crash
handle_crash-processes id code log m =
    crash_found-processes id code (log_reason log) m (get_server id m.db)

-- After the exit of any process of a server the server has no process entry, also where the entry
-- belongs to a process that was started later and still runs.
pub process_exited_forgets :
    (mon : Monitor) (result : WaitResult) (log : Option (List String)) (m : Manager)
    → lookup mon.id (process_exited mon result log m).processes ≡ none
unfolding process_exited set_resting
process_exited_forgets mon result log m =
    let gone : lookup mon.id (erase mon.id m.processes) ≡ none =
      rw (lookup-erase, str_eq_refl) refl in
    let kept = handle_crash-processes mon.id (exit_code_of result) log in
    elim (Bool-cases (has_handle mon.handle m.stop_requested)) [
      | inl h ↦ rw h gone
      | inr h ↦ elim (Bool-cases (leb stable_uptime (m.now - mon.started_at))) [
        | inl f ↦ rw h (
            rw f (
              ap (lookup mon.id)
                (kept (record (exit_noted mon result m) { attempts = reset mon.id m.attempts }))
              ∙ gone))
        | inr f ↦ rw h (rw f (ap (lookup mon.id) (kept (exit_noted mon result m)) ∙ gone))
      ]
    ]
