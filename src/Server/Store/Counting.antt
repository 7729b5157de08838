-- ===== src/Server/Store/Counting.antt =====
-- How the statements of backend/server/db.go change the number of running servers.
use realmrunner.Common.{◌+◌, ◌≤◌, ◌≡◌, refl, inl, inr, String, true, false, some, [], ◌∷◌, arith}
use realmrunner.Common.{str_eq, str_eq_iff, Bool-cases}
use realmrunner.Server.Store.{
  Server, Db, is_running, update_where, has_id, count_running, create_server, delete_server,
}
use realmrunner.Server.Store.Laws.{IsTable}

update_where_absent :
    (k : String) (f : Server → Server) (db : Db) → has_id k db ≡ false → update_where k f db ≡ db
unfolding update_where has_id
update_where_absent k f [] h = refl
update_where_absent k f (s ∷ db) h = ground (arith, update_where_absent k f db)

-- An update of one row adds one running server at most.
pub count_running-update_where :
    (k : String) (f : Server → Server) (db : Db)
    → IsTable db
    → count_running (update_where k f db) ≤ count_running db + 1
unfolding count_running update_where
count_running-update_where k f [] t = omega arith
count_running-update_where k f (s ∷ db) (i, p, t) = elim (Bool-cases (str_eq s.id k)) [
  | inl e ↦
      let absent : has_id k db ≡ false = rw ((str_eq_iff s.id k).0 e) at i in
      rw (e, update_where_absent k f db absent) (ground arith)
  | inr e ↦ rw e (ground (arith, count_running-update_where k f db t))
]

-- An update that starts nothing adds none.
pub count_running-update_where_le :
    (k : String) (f : Server → Server) (db : Db)
    → ((s : Server) → is_running (f s).status ≡ true → is_running s.status ≡ true)
    → count_running (update_where k f db) ≤ count_running db
unfolding count_running update_where
count_running-update_where_le k f [] h = omega arith
count_running-update_where_le k f (s ∷ db) h =
    ground (arith, h s, count_running-update_where_le k f db h)

pub count_running-delete_server :
    (k : String) (db : Db) → count_running (delete_server k db) ≤ count_running db
unfolding count_running delete_server
count_running-delete_server k [] = omega arith
count_running-delete_server k (s ∷ db) = ground (arith, count_running-delete_server k db)

pub count_running-create_server :
    (s : Server) (db db' : Db)
    → is_running s.status ≡ false
    → create_server s db ≡ some db'
    → count_running db' ≡ count_running db
unfolding create_server count_running
count_running-create_server s db db' h e = ground arith
