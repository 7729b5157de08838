-- ===== src/Server/Upgrade/Rows.antt =====
-- The row that a rollback of backend/server/upgrade.go leaves.
use realmrunner.Common.{◌≡◌, ◌∙◌, refl, String, Bool}
use realmrunner.Common.{some}
use realmrunner.Common.{str_eq_refl}
use mathlib.Core.Option
use realmrunner.Common.Int.{pos}
use realmrunner.Server.Store.{
  Reason, Server, Db, get_server, update_server_version, set_server_ready,
}
use realmrunner.Server.Store.Laws.{get_server-update_where}
use realmrunner.Server.Store.Columns.{get_server-update_server_status, get_server-record_exit}
use realmrunner.Server.Manager.State.{resting_of, resting_status}
use realmrunner.Server.Upgrade.{rolled_row}

pub get_server-update_server_version :
    (id version flavor : String) (db : Db)
    → get_server id (update_server_version id version flavor db)
      ≡ Option.map {A = Server} {B = Server}
          (λ s. record s { version = version; flavor = flavor })
          (get_server id db)
unfolding update_server_version
get_server-update_server_version id version flavor db =
    get_server-update_where id (λ s. record s { version = version; flavor = flavor })
      (record { id_kept = λ s. refl; port_kept = λ s. refl }) id db
    ∙ rw (str_eq_refl id) refl

pub get_server-set_server_ready :
    (id : String) (ready : Bool) (db : Db)
    → get_server id (set_server_ready id ready db)
      ≡ Option.map {A = Server} {B = Server} (λ s. record s { ready = ready }) (get_server id db)
unfolding set_server_ready
get_server-set_server_ready id ready db =
    get_server-update_where id (λ s. record s { ready = ready })
      (record { id_kept = λ s. refl; port_kept = λ s. refl }) id db
    ∙ rw (str_eq_refl id) refl

-- The row of a server that rests, as it was installed before.
abbrev pub IsBack : String → Server → Bool → Reason → Db → Type 0
IsBack id old existed reason db =
    (s : Server) × (get_server id db ≡ some s)
    × (s.version ≡ old.version)
    × (s.flavor ≡ old.flavor)
    × (s.ready ≡ existed)
    × (s.status ≡ resting_of (some s))
    × (s.last_error ≡ reason)

pub rolled_row-IsBack :
    (id : String) (old : Server) (existed : Bool) (reason : Reason) (db : Db) (s : Server)
    → get_server id db ≡ some s
    → IsBack id old existed reason (rolled_row id old existed reason db)
rolled_row-IsBack id old existed reason db s e =
    let versioned =
      set_server_ready id existed (update_server_version id old.version old.flavor db) in
    let s1 : Server = record s { version = old.version; flavor = old.flavor; ready = existed } in
    let found : get_server id versioned ≡ some s1 =
      rw (get_server-set_server_ready, get_server-update_server_version, e) refl in
    let rests : resting_status id versioned ≡ resting_of (some s1) =
      unfold resting_status in rw found refl in
    (
      record s1 { status = resting_of (some s1); last_exit_code = pos 0; last_error = reason },
      rw
          (
            get_server-record_exit, str_eq_refl, get_server-update_server_status, str_eq_refl,
            found, rests,
          )
          refl,
      refl,
      refl,
      refl,
      refl,
      refl,
    )
