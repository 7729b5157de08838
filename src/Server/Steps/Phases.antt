-- ===== src/Server/Steps/Phases.antt =====
-- StartServer of backend/server/manager.go in the pieces between which other goroutines run: the count
-- of the running servers, the read of the row, the preparation, and the process.
use realmrunner.Common.{ℕ, String, Option, none, some, List, ◌∷◌}
use realmrunner.Common.{if◌then◌else◌}
use realmrunner.Common.Int.{pos}
use realmrunner.Server.Store.{
  Reason, Server, is_running, starting, update_server_status, record_exit,
}
use realmrunner.Server.Crash.{preflight_java}
use realmrunner.Server.Manager.State.{World, Launch, Manager, with_db, set_resting}
use realmrunner.Server.Manager.Start.{
  Control, listen, refused, heap_for, ensure_control_config, spawn,
}

-- A start that is under way: it has counted the running servers and found room, it has read the row
-- of its server, or it is about to spawn the process with this heap on this port.
pub data Phase : Type 0 where
  counted : String → Phase
  found : String → Server → Phase
  prepared : Server → ℕ → ℕ → Phase

-- What the row of the server decides; `none` is the end of the start.
unfoldable pub read_row : String → Option Server → Option Phase
read_row id none = none
read_row id (some s) = if is_running s.status then none else some (found id s)

abbrev pub controlled : Server → ℕ → Control × Manager → Option Phase × Manager
controlled s heap (refused f, m) = (none, set_resting s.id m)
controlled s heap (listen port, m) = (some (prepared s heap port), m)

abbrev pub checked : Launch → Server → ℕ → Manager → Option Reason → Option Phase × Manager
checked l s heap m (some reason) =
    let rested = set_resting s.id m in
    (none, with_db rested (record_exit s.id (pos 0) reason rested.db))
checked l s heap m none = controlled s heap (ensure_control_config l s m)

-- From the status `starting` to the properties that are written.
unfoldable pub prepare : World → Launch → String → Server → Manager → Option Phase × Manager
unfolding update_server_status preflight_java heap_for ensure_control_config set_resting record_exit
prepare w l id s m =
    checked l s (heap_for w s) (with_db m (update_server_status id starting m.db))
      (preflight_java w.java_overrides w.runtimes s.version)

-- The starts under way, after one of them went on.
abbrev pub replaced : Option Phase → List Phase → List Phase
replaced none later = later
replaced (some p) later = p ∷ later

-- From the process on.
abbrev pub launched : Launch → Server → ℕ → ℕ → Manager → Manager
launched l s heap port m = (spawn s heap port l.pid m).1
