-- ===== src/Server/Steps/Whole/Upgrades.antt =====
-- UpgradeServer of backend/server/upgrade.go as a sequence of steps of the manager.
use realmrunner.Common.{ℕ, ◌≤◌, String, List, length}
use realmrunner.Server.Store.{Server}
use realmrunner.Server.Manager.State.{World, Manager}
use realmrunner.Server.Upgrade.{Site, Attempt, Stage, Verdict}
use realmrunner.Server.Steps.Phases.{Phase}
use realmrunner.Server.Steps.Whole.{Leads}

module _ (w : World) (k : ℕ) (others : List Phase) where
  module _ (a : Attempt) (text : Stage → String) (id version flavor : String) (m : Manager)
      (few : length others ≤ k) where
    abbrev LeadsTo : Verdict × Site → Type 0
    LeadsTo r = Leads w k others m r.1.manager
