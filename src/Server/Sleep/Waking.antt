-- ===== src/Server/Sleep/Waking.antt =====
-- wake and isAwake of backend/server/sleep.go: what a successful wake has achieved.
use realmrunner.Common.{
  ◌≡◌, ◌≢◌, refl, inl, inr, ◌⊎◌, String, true, false, Option, none, some, arith,
}
use realmrunner.Common.{Bool-cases, Option-cases}
use mathlib.Core.Option
use realmrunner.Server.Store.{Status, Server, running, starting, get_server, is_running}
use realmrunner.Server.Store.Columns.{status_of}
use realmrunner.Server.Manager.State.{World, Launch, Manager}
use realmrunner.Server.Manager.Start.{start_server}
use realmrunner.Server.Manager.Starts.{IsUp, start_server-IsUp}
use realmrunner.Server.Sleep.Wake.{is_up, wake_found, wake, is_awake}

is_awake-IsUp : (id : String) (m : Manager) → IsUp id m → is_awake id m ≡ true
unfolding is_awake
is_awake-IsUp id m (row, h, entry) = elim (Option-cases (get_server id m.db)) [
  | inl e ↦ absurd (ground (arith, e, row))
  | inr (s, e) ↦
      let up : is_running s.status ≡ true = ground (arith, e, row) in
      rw (e, entry) (ground (arith, up))
]

-- The server was running or starting, and nothing has changed; or it was neither, and now it has a
-- process and is running, which `isAwake` reports as awake.
abbrev pub IsComing : String → Manager → Manager → Type 0
IsComing id m t =
    (((status_of id m.db ≡ some running) ⊎ (status_of id m.db ≡ some starting)) × (t ≡ m))
    ⊎ ((status_of id m.db ≢ some running)
        × (status_of id m.db ≢ some starting)
        × IsUp id t
        × (is_awake id t ≡ true))

down-status : (s : Status) → is_up s ≡ false → (s ≢ running) × (s ≢ starting)
down-status s h = ground arith

up-status : (s : Status) → is_up s ≡ true → (s ≡ running) ⊎ (s ≡ starting)
up-status s h = ground arith

wake_found-IsComing :
    (w : World) (l : Launch) (id : String) (m : Manager) (s : Option Server)
    → get_server id m.db ≡ s
    → (wake_found w l id m s).0 ≡ none
    → IsComing id m (wake_found w l id m s).1
wake_found-IsComing w l id m none e ok = absurd (ground (arith, ok))
wake_found-IsComing w l id m (some s) e ok = elim (Bool-cases (is_up s.status)) [
  | inl u ↦ elim (up-status s.status u) [
    | inl r ↦ rw u (inl (inl (rw (e, r) refl), refl))
    | inr r ↦ rw u (inl (inr (rw (e, r) refl), refl))
  ]
  | inr u ↦
      let (_, up) = start_server-IsUp w l id m (rw u at ok) in
      let (not_running, not_starting) = down-status s.status u in
      rw u (
        inr (
          λ h. not_running (Option.some-injective _ _ (rw e at h)),
          λ h. not_starting (Option.some-injective _ _ (rw e at h)),
          up,
          is_awake-IsUp id (start_server w l id m).1 up,
        ))
]

-- A wake that reports success of a server that was running or starting changes nothing. Of any other
-- server it is a start: the server is running and has a process then, so that isAwake holds. Nothing
-- is said of its port, at which it need not answer yet.
pub wake-IsComing :
    (w : World) (l : Launch) (id : String) (m : Manager)
    → (wake w l id m).0 ≡ none
    → IsComing id m (wake w l id m).1
unfolding wake
wake-IsComing w l id m = wake_found-IsComing w l id m (get_server id m.db) refl
