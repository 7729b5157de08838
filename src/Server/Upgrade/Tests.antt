-- ===== src/Server/Upgrade/Tests.antt =====
-- The theorem on backend/server/upgrade.go where the start of the new version cannot spawn a process.
use realmrunner.Common.{◌≡◌, refl, String, true, none, some, [], ◌∷◌}
use realmrunner.Server.Store.{get_server}
use realmrunner.Server.Manager.State.{spawn_failed}
use realmrunner.Server.Upgrade.{
  Site, Attempt, Stage, rolled_back, at_start, rollback, upgrade_to, upgrade_server,
}
use realmrunner.Server.Upgrade.Rollback.{IsEnd, upgrade_server-IsEnd}
use realmrunner.Server.Tests.{world, launch, idle_server, resting}

abbrev pub no_process : Attempt
no_process = record {
  has_provider = true;
  backed_up = true;
  set_aside = true;
  downloaded = some (9 ∷ []);
  download_works = true;
  recorded = true;
  launch = record launch { pid = none };
  probes = [];
  renamed_back = true;
}

abbrev pub installed : Site
installed = record { manager = resting; jar = some (7 ∷ []); previous = none }

abbrev pub text : Stage → String
text stage = "failed"

upgrade_server-IsEnd_example :
    IsEnd world no_process text "lobby" "1.20.6" "vanilla" idle_server
      (some (7 ∷ []))
      resting
      (upgrade_server world no_process text "lobby" "1.20.6" "" installed).0
      (upgrade_server world no_process text "lobby" "1.20.6" "" installed).1
unfolding get_server
upgrade_server-IsEnd_example =
    upgrade_server-IsEnd world no_process text "lobby" "1.20.6" "" idle_server installed refl refl

-- It was rolled back.
no_process_verdict :
    (upgrade_to world no_process text "lobby" "1.20.6" "paper" installed).0
    ≡ rolled_back (at_start spawn_failed)
unfolding upgrade_to rollback get_server realmrunner.Server.Manager.Start.start_server
    realmrunner.Server.Store.count_running realmrunner.Server.Crash.preflight_java
    realmrunner.Minecraft.Java.required_java_major realmrunner.Minecraft.Java.resolve_java
no_process_verdict = refl
