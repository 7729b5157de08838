-- ===== src/Server/Manager/Heaps.antt =====
-- SetHeapMB and StartServer of backend/server/manager.go: which heaps are accepted, and what a start
-- then gives to Java.
use realmrunner.Common.{
  ℕ, ◌+◌, ◌*◌, ◌/◌, ◌≤◌, ◌≡◌, refl, inl, inr, String, true, Option, none, some, List, ◌∷◌, arith,
}
use realmrunner.Common.{leb, str_eq_refl, Bool-cases, Option-cases}
use realmrunner.Common.Int.{ℤ, is_pos, pos_part}
use realmrunner.Server.Store.{
  Reason, Server, Db, starting, is_running, get_server, count_running, update_server_status,
  set_heap_mb,
}
use realmrunner.Server.Store.Laws.{get_server-update_where}
use realmrunner.Server.Store.Columns.{get_server-id}
use realmrunner.Server.Crash.{preflight_java}
use realmrunner.Server.Manager.State.{World, Launch, Monitor, Manager, with_db}
use realmrunner.Server.Manager.Start.{
  Control, listen, refused, ensure_control_config, heap_for, adopt_process, spawn, configured,
  preflighted, begin_start, start_server,
}
use realmrunner.Server.Manager.Admin.{heap_fault, change_heap_mb}

get_server-set_heap_mb :
    (k : String) (mb : ℤ) (db : Db) (s : Server)
    → get_server k db ≡ some s
    → get_server k (set_heap_mb k mb db) ≡ some (record s { heap_mb = mb })
unfolding set_heap_mb
get_server-set_heap_mb k mb db s e =
    rw
      (
        get_server-update_where k (λ s. record s { heap_mb = mb })
            (record { id_kept = λ s. refl; port_kept = λ s. refl }) k db,
        e,
        str_eq_refl,
      )
      refl

heap_fault-none :
    (heap : ℤ) (s : Server)
    → is_pos heap ≡ true
    → heap_fault heap s ≡ none
    → (512 ≤ pos_part heap)
      × (is_pos s.memory_limit_mb ≡ true → pos_part heap * 4 / 3 + 256 ≤ pos_part s.memory_limit_mb)
heap_fault-none heap s h e = ground arith

-- The newest process is one of this server, and its command line gives this heap to Java.
abbrev pub RunsWith : String → ℕ → Manager → Type 0
RunsWith id heap m =
    (newest : Monitor) × (older : List Monitor) × (m.monitors ≡ newest ∷ older)
    × (newest.id ≡ id)
    × (newest.heap_mb ≡ heap)

spawn-RunsWith :
    (s : Server) (heap port : ℕ) (pid : Option ℕ) (m : Manager)
    → (spawn s heap port pid m).0 ≡ none
    → RunsWith s.id heap (spawn s heap port pid m).1
unfolding adopt_process
spawn-RunsWith s heap port none m ok = absurd (ground (arith, ok))
spawn-RunsWith s heap port (some pid) m ok = (_, m.monitors, refl, refl, refl)

configured-RunsWith :
    (l : Launch) (s : Server) (heap : ℕ) (a : Control × Manager)
    → (configured l s heap a).0 ≡ none
    → RunsWith s.id heap (configured l s heap a).1
configured-RunsWith l s heap (refused f, m) ok = absurd (ground (arith, ok))
configured-RunsWith l s heap (listen port, m) ok = spawn-RunsWith s heap port l.pid m ok

preflighted-RunsWith :
    (l : Launch) (s : Server) (heap : ℕ) (m : Manager) (r : Option Reason)
    → (preflighted l s heap m r).0 ≡ none
    → RunsWith s.id heap (preflighted l s heap m r).1
preflighted-RunsWith l s heap m (some r) ok = absurd (ground (arith, ok))
preflighted-RunsWith l s heap m none ok =
    configured-RunsWith l s heap (ensure_control_config l s m) ok

renamed-RunsWith :
    (j k : String) (heap : ℕ) (m : Manager) → j ≡ k → RunsWith j heap m → RunsWith k heap m
renamed-RunsWith j k heap m e runs = rw e at runs

begin_start-RunsWith :
    (w : World) (l : Launch) (id : String) (m : Manager) (s : Server)
    → s.id ≡ id
    → (begin_start w l id m (some s)).0 ≡ none
    → RunsWith id (heap_for w s) (begin_start w l id m (some s)).1
begin_start-RunsWith w l id m s named ok = elim (Bool-cases (is_running s.status)) [
  | inl r ↦ absurd (ground (arith, r, ok))
  | inr r ↦
      let begun = with_db m (update_server_status id starting m.db) in
      let reason = preflight_java w.java_overrides w.runtimes s.version in
      let runs = preflighted-RunsWith l s (heap_for w s) begun reason (rw r at ok) in
      rw r (
        renamed-RunsWith s.id id (heap_for w s) (preflighted l s (heap_for w s) begun reason).1
          named runs)
]

start_server-RunsWith :
    (w : World) (l : Launch) (id : String) (m : Manager) (s : Server)
    → get_server id m.db ≡ some s
    → (start_server w l id m).0 ≡ none
    → RunsWith id (heap_for w s) (start_server w l id m).1
unfolding start_server
start_server-RunsWith w l id m s e ok = elim (Bool-cases (leb w.max_running (count_running m.db))) [
  | inl h ↦ absurd (ground (arith, h, ok))
  | inr h ↦
      rw (h, e) (begin_start-RunsWith w l id m s (get_server-id id m.db s e) (rw e at (rw h at ok)))
]

-- A positive heap that SetHeapMB accepts is what a start that follows and succeeds gives to Java. It is
-- 512 MB at least, and where the server has a memory limit, a third more than the heap and 256 MB fit
-- that limit.
pub change_heap_mb-start_server :
    (w : World) (l : Launch) (id : String) (heap : ℤ) (m : Manager) (s : Server)
    → get_server id m.db ≡ some s
    → is_pos heap ≡ true
    → (change_heap_mb id heap m).0 ≡ none
    → (start_server w l id (change_heap_mb id heap m).1).0 ≡ none
    → RunsWith id (pos_part heap) (start_server w l id (change_heap_mb id heap m).1).1
      × (512 ≤ pos_part heap)
      × (is_pos s.memory_limit_mb ≡ true → pos_part heap * 4 / 3 + 256 ≤ pos_part s.memory_limit_mb)
unfolding change_heap_mb heap_for
change_heap_mb-start_server w l id heap m s e h ok started =
    elim (Option-cases (heap_fault heap s)) [
      | inl n ↦
          let stored : get_server id (change_heap_mb id heap m).1.db
              ≡ some (record s { heap_mb = heap }) =
            rw e (rw n (get_server-set_heap_mb id heap m.db s e)) in
          let (least, fits) = heap_fault-none heap s h n in
          let given : heap_for w (record s { heap_mb = heap }) ≡ pos_part heap = rw h refl in
          (
            rw given at (
                start_server-RunsWith w l id (change_heap_mb id heap m).1
                  (record s { heap_mb = heap }) stored started),
            least,
            fits,
          )
      | inr (f, n) ↦ absurd (ground (arith, e, n, ok))
    ]
