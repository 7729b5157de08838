-- ===== src/Server/Steps/Whole.antt =====
-- StartServer, wake and the delayed restart of backend/server in one go: their pieces in a row.
pub mod Upgrades
use realmrunner.Common.{ℕ, ◌≤◌, refl, inl, inr, String, Option, none, some, List, [], ◌∷◌, length}
use realmrunner.Common.{leb, Bool-cases}
use realmrunner.Server.Store.{Reason, Server, is_running, get_server, count_running}
use realmrunner.Server.Manager.State.{World, Launch, Manager}
use realmrunner.Server.Manager.Start.{
  Control, listen, refused, heap_for, configured, preflighted, begin_start, start_server,
}
use realmrunner.Server.Manager.Stop.{is_crashed, restart_found, delayed_restart}
use realmrunner.Server.Sleep.Wake.{is_up, wake_found, wake}
use realmrunner.Server.Steps.{
  Act, Busy, Step, act, begin, read, go_on, launch, Reach, here, further,
}
use realmrunner.Server.Steps.Phases.{
  Phase, counted, found, read_row, controlled, checked, prepare, replaced,
}

abbrev pub busy : Manager → List Phase → Busy
busy m phases = record { manager = m; under_way = phases }

pub join : {w : World} {k : ℕ} {b c d : Busy} → Reach w k b c → Reach w k c d → Reach w k b d
join r here = r
join r (further before last) = further (join r before) last

module _ (w : World) (k : ℕ) (others : List Phase) where
  -- Some steps lead from one manager to the other, and leave the starts under way as they were.
  abbrev pub Leads : Manager → Manager → Type 0
  Leads m t = Reach w k (busy m others) (busy t others)

  pub Act-Leads : (m t : Manager) → Act w m t → Leads m t
  Act-Leads m t a = further here (act t a)

  controlled-Leads :
      (l : Launch) (s : Server) (heap : ℕ) (a : Control × Manager)
      → Reach w k
          (busy (controlled s heap a).1 (replaced (controlled s heap a).0 others))
          (busy (configured l s heap a).1 others)
  controlled-Leads l s heap (refused f, m) = here
  controlled-Leads l s heap (listen port, m) = further here (launch [] others l s heap port refl)

  checked-Leads :
      (l : Launch) (s : Server) (heap : ℕ) (m : Manager) (r : Option Reason)
      → Reach w k
          (busy (checked l s heap m r).1 (replaced (checked l s heap m r).0 others))
          (busy (preflighted l s heap m r).1 others)
  checked-Leads l s heap m (some r) = here
  checked-Leads l s heap m none = controlled-Leads l s heap _

  read_row-Leads :
      (l : Launch) (id : String) (m : Manager) (row : Option Server)
      → Reach w k
          (busy m (replaced (read_row id row) others))
          (busy (begin_start w l id m row).1 others)
  unfolding read_row prepare
  read_row-Leads l id m none = here
  read_row-Leads l id m (some s) = elim (Bool-cases (is_running s.status)) [
    | inl e ↦ rw e here
    | inr e ↦
        rw e
          (join (further here (go_on [] others l id s refl)) (checked-Leads l s (heap_for w s) _ _))
  ]

  -- A start that nothing interrupts is a sequence of its pieces.
  pub start_server-Leads :
      (l : Launch) (id : String) (m : Manager)
      → length others ≤ k
      → Leads m (start_server w l id m).1
  unfolding start_server
  start_server-Leads l id m few = elim (Bool-cases (leb w.max_running (count_running m.db))) [
    | inl e ↦ rw e here
    | inr e ↦ rw e (
        join (further (further here (begin id e few)) (read [] others id refl))
          (read_row-Leads l id m (get_server id m.db)))
  ]

  wake_found-Leads :
      (l : Launch) (id : String) (m : Manager) (s : Option Server)
      → length others ≤ k
      → Leads m (wake_found w l id m s).1
  wake_found-Leads l id m none few = here
  wake_found-Leads l id m (some s) few = elim (Bool-cases (is_up s.status)) [
    | inl e ↦ rw e here
    | inr e ↦ rw e (start_server-Leads l id m few)
  ]

  wake-Leads :
      (l : Launch) (id : String) (m : Manager) → length others ≤ k → Leads m (wake w l id m).1
  unfolding wake
  wake-Leads l id m = wake_found-Leads l id m (get_server id m.db)

  restart_found-Leads :
      (l : Launch) (id : String) (m : Manager) (s : Option Server)
      → length others ≤ k
      → Leads m (restart_found w l id m s)
  restart_found-Leads l id m none few = here
  restart_found-Leads l id m (some s) few = elim (Bool-cases (is_crashed s.status)) [
    | inl e ↦ rw e (start_server-Leads l id m few)
    | inr e ↦ rw e here
  ]

  delayed_restart-Leads :
      (l : Launch) (id : String) (m : Manager)
      → length others ≤ k
      → Leads m (delayed_restart w l id m)
  unfolding delayed_restart
  delayed_restart-Leads l id m = restart_found-Leads l id m (get_server id m.db)
