-- ===== src/Server/Sleep/Idling.antt =====
-- checkIdleServers of backend/server/sleep.go: exactly when an empty server is put to sleep.
use realmrunner.Common.{
  ℕ, ◌-◌, ◌<◌, ◌≤◌, ◌≡◌, ◌∙◌, refl, ap, inl, inr, true, Option, none, some, arith,
}
use realmrunner.Common.{leb, str_eq_refl, Option-cases}
use realmrunner.Common.Assoc.{lookup, lookup-erase}
use realmrunner.Server.Store.{Status, sleeping, is_running, Server, get_server}
use realmrunner.Server.Store.Columns.{get_server-update_server_status}
use realmrunner.Server.Manager.State.{Manager, Outcome}
use realmrunner.Server.Manager.Stop.{can_stop, stop_server}
use realmrunner.Server.Manager.Stopping.{Rests, stop_server-Rests}
use realmrunner.Server.Sleep.Idle.{
  mark_idle, clear_idle, sleep_stopped, sleep_found, sleep, idle_timeout, check_idle,
}

running-can_stop : (s : Status) → is_running s ≡ true → can_stop s ≡ true
running-can_stop s h = ground arith

-- Sleeping: the row says so, and there is no process.
abbrev pub Sleeps : Server → Manager → Type 0
Sleeps s m =
    (get_server s.id m.db ≡ some (record s { status = sleeping }))
    × (lookup s.id m.processes ≡ none)

sleep_stopped-Sleeps :
    (s : Server) (m : Manager) (o : Outcome)
    → o.0 ≡ none
    → Rests s.id s m o.1
    → Sleeps s (sleep_stopped s.id o).1
sleep_stopped-Sleeps s m (some f, t) ok r = absurd (ground (arith, ok))
sleep_stopped-Sleeps s m (none, t) ok (row, gone, rest) =
    (rw (get_server-update_server_status, row, str_eq_refl) refl, gone)

sleep-found :
    (m : Manager) (s : Server)
    → get_server s.id m.db ≡ some s
    → s.auto_sleep ≡ true
    → sleep s.id m ≡ sleep_stopped s.id (stop_server s.id m)
unfolding sleep
sleep-found m s e a = ap (sleep_found s.id m) e ∙ rw a refl

sleep-Sleeps :
    (m : Manager) (s : Server)
    → get_server s.id m.db ≡ some s
    → s.auto_sleep ≡ true
    → is_running s.status ≡ true
    → Sleeps s (sleep s.id m).1
sleep-Sleeps m s e a r =
    let (ok, rests) = stop_server-Rests s.id m s e (running-can_stop s.status r) in
    rw (sleep-found m s e a) (sleep_stopped-Sleeps s m (stop_server s.id m) ok rests)

check_idle-late :
    (s : Server) (m : Manager) (since : ℕ)
    → s.auto_sleep ≡ true
    → is_running s.status ≡ true
    → lookup s.id m.sleep_states ≡ some since
    → idle_timeout s ≤ m.now - since
    → check_idle (some 0) s m ≡ clear_idle s.id (sleep s.id m).1
unfolding check_idle mark_idle
check_idle-late s m since a r l t =
    let late : leb (idle_timeout s) (m.now - since) ≡ true = ground arith in
    rw (a, r, l) (rw late refl)

-- A running server with auto-sleep on which nobody plays, and which was first seen empty at least
-- its idle timeout ago, is put to sleep: its row is `sleeping`, its process is gone, and so is its
-- idle mark.
pub check_idle-Sleeps :
    (s : Server) (m : Manager) (since : ℕ)
    → get_server s.id m.db ≡ some s
    → s.auto_sleep ≡ true
    → is_running s.status ≡ true
    → lookup s.id m.sleep_states ≡ some since
    → idle_timeout s ≤ m.now - since
    → Sleeps s (check_idle (some 0) s m)
      × (lookup s.id (check_idle (some 0) s m).sleep_states ≡ none)
unfolding clear_idle
check_idle-Sleeps s m since e a r l t =
    rw (check_idle-late s m since a r l t)
      (sleep-Sleeps m s e a r, rw (lookup-erase, str_eq_refl) refl)

-- In every other case the watcher leaves the table and the processes as they are: the number of
-- players is not known, or it is positive, or the server has been empty for less than its timeout, or
-- has no idle mark yet, or does not run, or has no auto-sleep.
pub check_idle_waits :
    (players : Option ℕ) (s : Server) (m : Manager)
    → (s.auto_sleep ≡ true
        → is_running s.status ≡ true
        → players ≡ some 0
        → (since : ℕ) → lookup s.id m.sleep_states ≡ some since
        → m.now - since < idle_timeout s)
    → ((check_idle players s m).db ≡ m.db) × ((check_idle players s m).processes ≡ m.processes)
unfolding check_idle mark_idle clear_idle
check_idle_waits none s m h = ground arith
check_idle_waits (some n) s m h = elim (Option-cases (lookup s.id m.sleep_states)) [
  | inl e ↦ rw e (ground arith)
  | inr (since, e) ↦
      let early : s.auto_sleep ≡ true
          → is_running s.status ≡ true
          → n ≡ 0
          → m.now - since < idle_timeout s =
        λ a r z. h a r (rw z refl) since e in
      rw e (ground (arith, early))
]
