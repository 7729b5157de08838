-- ===== src/Server/Store/Columns.antt =====
-- What the statements of backend/server/db.go do to the status of each server.
use realmrunner.Common.{ℕ, ◌≡◌, refl, inl, inr, String, Option, some, [], ◌∷◌, arith}
use realmrunner.Common.{if◌then◌else◌, str_eq, str_eq_iff, str_eq_refl, Option-cases}
use realmrunner.Common.Int.{ℤ, pos}
use mathlib.Core.Option
use realmrunner.Server.Store.{
  Server, Status, Reason, Db, get_server, update_where, update_server_status,
  update_server_last_started, set_rcon_credentials, set_internal_port, record_exit,
  clear_last_error,
}
use realmrunner.Server.Store.Laws.{get_server-update_where}

pub get_server-id : (k : String) (db : Db) (s : Server) → get_server k db ≡ some s → s.id ≡ k
unfolding get_server
get_server-id k [] s e = absurd (ground (arith, e))
get_server-id k (r ∷ db) s e = ground (arith, str_eq_iff r.id k, get_server-id k db s)

abbrev pub status_of : String → Db → Option Status
status_of id db = Option.map (λ s. s.status) (get_server id db)

pub get_server-update_server_status :
    (k j : String) (st : Status) (db : Db)
    → get_server j (update_server_status k st db) ≡ (
        if str_eq k j
        then Option.map {A = Server} {B = Server} (λ s. record s { status = st }) (get_server j db)
        else get_server j db)
unfolding update_server_status
get_server-update_server_status k j st =
    get_server-update_where k (λ s. record s { status = st })
      (record { id_kept = λ s. refl; port_kept = λ s. refl }) j

pub get_server-record_exit :
    (k j : String) (code : ℤ) (r : Reason) (db : Db)
    → get_server j (record_exit k code r db) ≡ (
        if str_eq k j
        then Option.map {A = Server} {B = Server}
            (λ s. record s { last_exit_code = code; last_error = r })
            (get_server j db)
        else get_server j db)
unfolding record_exit
get_server-record_exit k j code r =
    get_server-update_where k (λ s. record s { last_exit_code = code; last_error = r })
      (record { id_kept = λ s. refl; port_kept = λ s. refl }) j

pub status_of-set :
    (k : String) (st : Status) (db : Db) (old : Status)
    → status_of k db ≡ some old
    → status_of k (update_server_status k st db) ≡ some st
status_of-set k st db old h = elim (Option-cases (get_server k db)) [
  | inl e ↦ absurd (ground (arith, e, h))
  | inr (s, e) ↦ rw (get_server-update_server_status, str_eq_refl, e) refl
]

-- An update that keeps the key and the status keeps every status.
status_of-update_where :
    (k : String) (f : Server → Server)
    → ((s : Server) → (f s).id ≡ s.id)
    → ((s : Server) → (f s).port ≡ s.port)
    → ((s : Server) → (f s).status ≡ s.status)
    → (j : String) (db : Db) → status_of j (update_where k f db) ≡ status_of j db
status_of-update_where k f i p t j db = elim (Option-cases (get_server j db)) [
  | inl e ↦
      rw (get_server-update_where k f (record { id_kept = i; port_kept = p }), e) (ground arith)
  | inr (s, e) ↦
      rw (get_server-update_where k f (record { id_kept = i; port_kept = p }), e)
        (ground (arith, t s))
]

pub status_of-credentials :
    (k : String) (port : ℕ) (password : String) (j : String) (db : Db)
    → status_of j (set_rcon_credentials k port password db) ≡ status_of j db
unfolding set_rcon_credentials
status_of-credentials k port password =
    status_of-update_where k (λ s. record s { rcon_port = port; rcon_password = password })
      (λ s. refl) (λ s. refl) (λ s. refl)

pub status_of-internal_port :
    (k : String) (port : ℕ) (j : String) (db : Db)
    → status_of j (set_internal_port k port db) ≡ status_of j db
unfolding set_internal_port
status_of-internal_port k port =
    status_of-update_where k (λ s. record s { internal_port = port }) (λ s. refl) (λ s. refl)
      (λ s. refl)

pub status_of-last_started :
    (k : String) (time : ℕ) (j : String) (db : Db)
    → status_of j (update_server_last_started k time db) ≡ status_of j db
unfolding update_server_last_started
status_of-last_started k time =
    status_of-update_where k (λ s. record s { last_started_at = some time }) (λ s. refl) (λ s. refl)
      (λ s. refl)

pub status_of-record_exit :
    (k : String) (code : ℤ) (r : Reason) (j : String) (db : Db)
    → status_of j (record_exit k code r db) ≡ status_of j db
unfolding record_exit
status_of-record_exit k code r =
    status_of-update_where k (λ s. record s { last_exit_code = code; last_error = r }) (λ s. refl)
      (λ s. refl) (λ s. refl)

pub status_of-clear_last_error :
    (k j : String) (db : Db) → status_of j (clear_last_error k db) ≡ status_of j db
unfolding clear_last_error
status_of-clear_last_error k =
    status_of-update_where k
      (λ s. record s { last_exit_code = pos 0; last_error = Reason.nothing_recorded }) (λ s. refl)
      (λ s. refl) (λ s. refl)
