-- ===== src/Server/Sleep/Tests.antt =====
-- The theorems on a player who joins a sleeping server of backend/server/sleep.go, at a concrete one.
use realmrunner.Common.{◌≡◌, refl, false, true, ℕ, List, [], ◌∷◌, ◌++◌, arith}
use realmrunner.Common.Text.{codes}
use realmrunner.SleepProxy.{handle}
use realmrunner.SleepProxy.Forwarding.{Forwards}
use realmrunner.Mcproto.Messages.{newline}
use realmrunner.SleepProxy.Tests.{
  marshal, login_body, login_bytes, login_handshake, reads_login, reads_handshake,
  reachable_network,
}
use realmrunner.Server.Properties.{missing}
use realmrunner.Server.Manager.State.{Fault, limit_reached}
use realmrunner.Server.Manager.Start.{start_server}
use realmrunner.Server.Store.{get_server}
use realmrunner.Server.Sleep.Wake.{wake, is_awake}
use realmrunner.Server.Sleep.Waking.{IsComing}
use realmrunner.Server.Sleep.Door.{realm_hooks}
use realmrunner.Server.Sleep.Joining.{Shows, join-IsComing, join-IsTold}
use realmrunner.Server.Tests.{world, launch, resting, full}

abbrev text : Fault → List ℕ
text f = codes "no"

join-IsComing_example :
    Forwards reachable_network login_body
      (1 ∷ 9 ∷ [])
      (handle
        (realm_hooks world launch text missing "lobby")
        marshal
        reachable_network
        login_bytes
        resting).0
    × IsComing "lobby" resting
        (handle
          (realm_hooks world launch text missing "lobby")
          marshal
          reachable_network
          login_bytes
          resting).1
unfolding wake is_awake start_server get_server realmrunner.Server.Store.count_running
    realmrunner.Server.Crash.preflight_java realmrunner.Minecraft.Java.required_java_major
    realmrunner.Minecraft.Java.resolve_java
join-IsComing_example =
    join-IsComing world launch text missing "lobby" marshal reachable_network login_bytes login_body
      (1 ∷ 9 ∷ []) login_handshake resting (record { closing = false; reachable = false } ∷ [])
      (record { closing = false; reachable = true }) [] reads_login reads_handshake refl refl refl
      refl ((refl, refl), tt) (refl, refl)

join-IsTold_example :
    Shows
      (codes "This realm could not be started:" ++ newline ∷ codes "no")
      (handle
        (realm_hooks world launch text missing "lobby")
        marshal
        reachable_network
        login_bytes
        full).0
    × ((handle
          (realm_hooks world launch text missing "lobby")
          marshal
          reachable_network
          login_bytes
          full).1
        ≡ (wake world launch "lobby" full).1)
unfolding wake is_awake start_server get_server realmrunner.Server.Store.count_running
    realmrunner.Mcproto.Messages.chat_component realmrunner.Mcproto.Messages.quote_json
    realmrunner.Mcproto.Messages.quote_runes realmrunner.Mcproto.Messages.quote_rune
join-IsTold_example =
    join-IsTold world launch text missing "lobby" marshal reachable_network login_bytes login_body
      (1 ∷ 9 ∷ []) login_handshake full limit_reached reads_login reads_handshake refl refl refl
      refl (omega arith)
