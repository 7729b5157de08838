-- ===== src/Auth/Tests.antt =====
-- The theorems on backend/auth/middleware.go with a transparent hash and signature, and the owner that
-- a change of role takes away.
use realmrunner.Common.{◌≡◌, ◌≤◌, refl, inl, String, none, some, arith}
use realmrunner.Common.{[], ◌&&◌, if◌then◌else◌, str_eq, str_eq_iff}
use realmrunner.Common.Text.{codes}
use realmrunner.Auth.{
  User, Users, Claims, Crypto, granted, allowed, create_user, login, claims_of, extract_claims,
  migrate_from_single_password, owner_count, update_user, delete_user,
}
use realmrunner.Auth.Owners.{here, further, delete, Reach-HasOwner}
use realmrunner.Auth.Sessions.{IsSound, bearer, create_user-login}

abbrev the_claims : Claims
the_claims = record { user_id = "u2"; name = "eve"; role = "admin" }

abbrev one_user : Crypto
one_user = record {
  hash = λ password. some password;
  matches = str_eq;
  sign = λ x.
      if str_eq x.user_id "u2" && (str_eq x.name "eve" && str_eq x.role "admin")
      then some (codes "token")
      else none;
  verify = λ token. some the_claims;
}

the_claims-only :
    (a b r : String)
    → a ≡ "u2"
    → b ≡ "eve"
    → r ≡ "admin"
    → some the_claims ≡ some (record { user_id = a; name = b; role = r })
the_claims-only a b r e f g = rw (e, f, g) refl

one_user-IsSound : IsSound one_user
one_user-IsSound = record {
  matches_own = λ password h e. ground (arith, str_eq_iff h password);
  verifies_own = λ x token e.
      the_claims-only x.user_id x.name x.role (ground (arith, str_eq_iff x.user_id "u2", e))
        (ground (arith, str_eq_iff x.name "eve", e)) (ground (arith, str_eq_iff x.role "admin", e));
}

create_user-login_example :
    (u : User) × (login one_user "eve" "pw" (create_user one_user "u2" "eve" "pw" "admin" []).1
      ≡ granted (codes "token") u)
    × (u.role ≡ "admin")
    × (extract_claims one_user (bearer (codes "token")) [] ≡ allowed (claims_of u))
unfolding realmrunner.Auth.has_user realmrunner.Auth.has_name
create_user-login_example =
    create_user-login one_user "u2" "eve" "pw" "admin" "pw" b't' (codes "oken") [] []
      one_user-IsSound refl refl refl refl refl refl

abbrev migrated_users : Users
migrated_users = migrate_from_single_password "u1" "hash" []

Reach-HasOwner_example : 1 ≤ owner_count (delete_user "u1" migrated_users).1
Reach-HasOwner_example =
    Reach-HasOwner one_user "u1" "hash" [] (delete_user "u1" migrated_users).1 refl tt (inl refl)
      (further here (delete "u1"))

-- A change of role leaves no owner.
demoted : owner_count (update_user "u1" "viewer" migrated_users) ≡ 0
unfolding owner_count update_user migrate_from_single_password realmrunner.Auth.update_users
    realmrunner.Auth.insert_user realmrunner.Auth.has_user realmrunner.Auth.has_name
demoted = refl
