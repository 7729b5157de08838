-- ===== src/Server/Store/Laws.antt =====
-- The table of backend/server/db.go as a map from ids, and its constraints.
use realmrunner.Common.{ℕ, ◌≡◌, refl, inl, inr, String, false, none, some, [], ◌∷◌, arith}
use realmrunner.Common.{if◌then◌else◌, str_eq, str_eq_iff, Bool-cases}
use mathlib.Core.Option
use realmrunner.Server.Store.{
  Server, Db, get_server, update_where, has_id, port_exists, create_server, delete_server,
}

-- The constraints of the schema: no two rows share an id or a port.
abbrev pub IsTable : Db → Type 0
IsTable [] = Unit
IsTable (s ∷ db) = (has_id s.id db ≡ false) × (port_exists s.port db ≡ false) × IsTable db

-- An update that leaves the key columns alone.
pub record KeepsKey (f : Server → Server) : Type 0 where
  pub id_kept : (s : Server) → (f s).id ≡ s.id
  pub port_kept : (s : Server) → (f s).port ≡ s.port

module _ (k : String) (f : Server → Server) (keeps : KeepsKey f) where
  pub get_server-update_where :
      (j : String) (db : Db)
      → get_server j (update_where k f db)
        ≡ (if str_eq k j then Option.map f (get_server j db) else get_server j db)
  unfolding get_server update_where
  get_server-update_where j [] = ground arith
  get_server-update_where j (s ∷ db) = ground (
    arith,
    str_eq_iff s.id k,
    str_eq_iff s.id j,
    str_eq_iff k j,
    keeps.id_kept s,
    get_server-update_where j db,
  )

  pub has_id-update_where : (j : String) (db : Db) → has_id j (update_where k f db) ≡ has_id j db
  unfolding has_id update_where
  has_id-update_where j [] = refl
  has_id-update_where j (s ∷ db) = ground (arith, keeps.id_kept s, has_id-update_where j db)

  pub port_exists-update_where :
      (p : ℕ) (db : Db) → port_exists p (update_where k f db) ≡ port_exists p db
  unfolding port_exists update_where
  port_exists-update_where p [] = refl
  port_exists-update_where p (s ∷ db) =
      ground (arith, keeps.port_kept s, port_exists-update_where p db)

  pub update_where-IsTable : (db : Db) → IsTable db → IsTable (update_where k f db)
  unfolding update_where
  update_where-IsTable [] h = tt
  update_where-IsTable (s ∷ db) (i, p, t) = elim (Bool-cases (str_eq s.id k)) [
    | inl e ↦
        rw (e, keeps.id_kept s, keeps.port_kept s, has_id-update_where, port_exists-update_where)
          (i, p, update_where-IsTable db t)
    | inr e ↦
        rw (e, has_id-update_where, port_exists-update_where) (i, p, update_where-IsTable db t)
  ]

has_id-delete_server :
    (k j : String) (db : Db) → has_id j db ≡ false → has_id j (delete_server k db) ≡ false
unfolding has_id delete_server
has_id-delete_server k j [] h = refl
has_id-delete_server k j (s ∷ db) h = ground (arith, has_id-delete_server k j db)

port_exists-delete_server :
    (k : String) (p : ℕ) (db : Db)
    → port_exists p db ≡ false
    → port_exists p (delete_server k db) ≡ false
unfolding port_exists delete_server
port_exists-delete_server k p [] h = refl
port_exists-delete_server k p (s ∷ db) h = ground (arith, port_exists-delete_server k p db)

pub delete_server-IsTable : (k : String) (db : Db) → IsTable db → IsTable (delete_server k db)
unfolding delete_server
delete_server-IsTable k [] h = tt
delete_server-IsTable k (s ∷ db) (i, p, t) = elim (Bool-cases (str_eq s.id k)) [
  | inl e ↦ rw e (delete_server-IsTable k db t)
  | inr e ↦ rw e (
    has_id-delete_server k s.id db i,
    port_exists-delete_server k s.port db p,
    delete_server-IsTable k db t,
  )
]

pub get_server-delete_server :
    (k j : String) (db : Db)
    → get_server j (delete_server k db) ≡ (if str_eq k j then none else get_server j db)
unfolding get_server delete_server
get_server-delete_server k j [] = ground arith
get_server-delete_server k j (s ∷ db) =
    ground
      (arith, str_eq_iff s.id k, str_eq_iff s.id j, str_eq_iff k j, get_server-delete_server k j db)

pub create_server-IsTable :
    (s : Server) (db db' : Db) → IsTable db → create_server s db ≡ some db' → IsTable db'
unfolding create_server
create_server-IsTable s db db' t e = ground arith
