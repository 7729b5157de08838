-- ===== src/Server/Steps/Tests.antt =====
-- The theorems on the steps of the manager of backend/server, where two starts overlap, and for an
-- upgrade beside a start.
use realmrunner.Common.{◌≤◌, ◌+◌, ◌≡◌, refl, [], ◌∷◌, arith}
use realmrunner.Server.Store.{Server, Db, count_running}
use realmrunner.Server.Manager.State.{Manager}
use realmrunner.Server.Sleep.Proxy.{boot}
use realmrunner.Server.Steps.{Busy, Reach, begin, read, go_on, launch, here, further}
use realmrunner.Server.Steps.Phases.{counted, found, prepared, prepare, launched}
use realmrunner.Server.Steps.Limit.{boot-limit}
use realmrunner.Server.Steps.Whole.{busy}
use realmrunner.Server.Tests.{world, idle_server}

abbrev arena : Server
arena = record idle_server { id = "arena"; port = 25566; rcon_port = 35566; internal_port = 45566 }

abbrev two : Db
two = idle_server ∷ arena ∷ []

abbrev booted : Manager
booted = boot two 50

abbrev started : Manager
started =
    launched realmrunner.Server.Tests.launch idle_server 2048 45565
      (prepare world realmrunner.Server.Tests.launch "lobby" idle_server booted).1

abbrev arena_ready : Manager
arena_ready = (prepare world realmrunner.Server.Tests.launch "arena" arena started).1

abbrev both : Busy
both = busy (launched realmrunner.Server.Tests.launch arena 2048 45566 arena_ready) []

-- The second start counts before the first one is running.
overlapping : Reach world 1 (busy booted []) both
unfolding boot prepare realmrunner.Server.Steps.Phases.read_row realmrunner.Server.Store.get_server
    realmrunner.Server.Store.count_running realmrunner.Server.Crash.preflight_java
    realmrunner.Minecraft.Java.required_java_major realmrunner.Minecraft.Java.resolve_java
    realmrunner.Server.Manager.Start.adopt_process
overlapping =
    let l = realmrunner.Server.Tests.launch in
    further
      (further
        (further
          (further
            (further
              (further
                (further (further here (begin "lobby" refl (omega arith)))
                  (begin "arena" refl (omega arith)))
                (read (counted "arena" ∷ []) [] "lobby" refl))
              (go_on (counted "arena" ∷ []) [] l "lobby" idle_server refl))
            (launch (counted "arena" ∷ []) [] l idle_server 2048 45565 refl))
          (read [] [] "arena" refl))
        (go_on [] [] l "arena" arena refl))
      (launch [] [] l arena 2048 45566 refl)

-- Both servers run, where the limit is one.
both_run : count_running both.manager.db ≡ 2
unfolding boot prepare count_running realmrunner.Server.Manager.Start.adopt_process
both_run = refl

boot-limit_example : count_running both.manager.db + 0 ≤ 1 + 1
unfolding realmrunner.Server.Store.has_id realmrunner.Server.Store.port_exists
boot-limit_example = boot-limit world 1 two 50 both (refl, refl, (refl, refl, tt)) overlapping
