-- ===== src/Auth.antt =====
-- backend/auth/middleware.go and the checks of backend/api/users.go: the table of users, logging in, and
-- what a token lets through. bcrypt, the signing of tokens and fresh ids are arguments.
pub mod Owners
pub mod Sessions
pub mod Tests
use realmrunner.Common.{
  ℕ, suc, String, Bool, true, false, not, ◌&&◌, ◌||◌, ◌==◌, leb, Option, none, some,
}
use realmrunner.Common.{List, [], ◌∷◌, ◌++◌, if◌then◌else◌, str_eq}
use realmrunner.Common.Text.{codes, text_eq}

pub record User : Type 0 where
  pub id : String
  pub username : String
  pub password_hash : String
  pub role : String

abbrev pub Users : Type 0
Users = List User

pub record Claims : Type 0 where
  pub user_id : String
  pub name : String
  pub role : String

-- bcrypt with its default cost, and its comparison of a hash with a password; the HS256 tokens under
-- the secret of the configuration, which are text as its code points.
pub record Crypto : Type 0 where
  pub hash : String → Option String
  pub matches : String → String → Bool
  pub sign : Claims → Option (List ℕ)
  pub verify : List ℕ → Option Claims

pub data AuthError : Type 0 where
  hash_failed insert_failed last_owner invalid_role : AuthError
  invalid_credentials token_failed authorization_required invalid_token : AuthError

abbrev pub is_owner : User → Bool
is_owner u = str_eq u.role "owner"

-- `SELECT COUNT(*) FROM users WHERE role = 'owner'`
unfoldable pub owner_count : Users → ℕ
owner_count [] = 0
owner_count (u ∷ us) = if is_owner u then suc (owner_count us) else owner_count us

unfoldable pub user_by_name : String → Users → Option User
user_by_name name [] = none
user_by_name name (u ∷ us) =
    let later = user_by_name name us in if str_eq u.username name then some u else later

-- `SELECT role FROM users WHERE id = ?`, which leaves the empty text where there is no row.
unfoldable pub role_of : String → Users → String
role_of id [] = ""
role_of id (u ∷ us) = let later = role_of id us in if str_eq u.id id then u.role else later

unfoldable pub has_user : String → Users → Bool
has_user id [] = false
has_user id (u ∷ us) = str_eq u.id id || has_user id us

unfoldable pub has_name : String → Users → Bool
has_name name [] = false
has_name name (u ∷ us) = str_eq u.username name || has_name name us

-- `INSERT INTO users`: the id is the primary key and the name is unique.
unfoldable pub insert_user : User → Users → Option Users
unfolding has_user has_name
insert_user u us = if has_user u.id us || has_name u.username us then none else some (u ∷ us)

abbrev pub migrated : Users → Option Users → Users
migrated us none = us
migrated us (some us') = us'

-- migrateFromSinglePassword, with a fresh id
unfoldable pub migrate_from_single_password : String → String → Users → Users
unfolding insert_user
migrate_from_single_password id password_hash (u ∷ us) = u ∷ us
migrate_from_single_password id password_hash [] =
    let admin : User = record {
      id = id;
      username = "admin";
      password_hash = password_hash;
      role = "owner";
    } in
    if str_eq password_hash "" then [] else migrated [] (insert_user admin [])

abbrev pub Changed : Type 0
Changed = Option AuthError × Users

abbrev pub inserted : Users → Option Users → Changed
inserted us none = (some insert_failed, us)
inserted us (some us') = (none, us')

abbrev pub created : String → String → String → Users → Option String → Changed
created id name role us none = (some hash_failed, us)
created id name role us (some h) =
    inserted us
      (insert_user (record { id = id; username = name; password_hash = h; role = role }) us)

-- CreateUser of the middleware, with a fresh id
unfoldable pub create_user : Crypto → String → String → String → String → Users → Changed
unfolding insert_user
create_user c id name password role us = created id name role us (c.hash password)

-- CreateUser of the handlers: an empty role is that of a viewer.
unfoldable pub request_user : Crypto → String → String → String → String → Users → Changed
unfolding create_user
request_user c id name password role us =
    let wanted = if str_eq role "" then "viewer" else role in
    let made = create_user c id name password wanted us in
    if not (str_eq wanted "owner") && (not (str_eq wanted "admin") && not (str_eq wanted "viewer"))
    then (some invalid_role, us)
    else made

unfoldable pub update_users : String → (User → User) → Users → Users
update_users id f [] = []
update_users id f (u ∷ us) =
    let rest = update_users id f us in (if str_eq u.id id then f u else u) ∷ rest

-- UpdateUser
unfoldable pub update_user : String → String → Users → Users
unfolding update_users
update_user id role us = update_users id (λ u. record u { role = role }) us

unfoldable pub remove_user : String → Users → Users
remove_user id [] = []
remove_user id (u ∷ us) = let rest = remove_user id us in if str_eq u.id id then rest else u ∷ rest

-- DeleteUser
unfoldable pub delete_user : String → Users → Changed
unfolding owner_count role_of remove_user
delete_user id us =
    if str_eq (role_of id us) "owner" && leb (owner_count us) 1
    then (some last_owner, us)
    else (none, remove_user id us)

abbrev pub rehashed : String → Users → Option String → Changed
rehashed id us none = (some hash_failed, us)
rehashed id us (some h) = (none, update_users id (λ u. record u { password_hash = h }) us)

-- ChangePassword
unfoldable pub change_password : Crypto → String → String → Users → Changed
unfolding update_users
change_password c id password us = rehashed id us (c.hash password)

pub data Login : Type 0 where
  granted : List ℕ → User → Login
  denied : AuthError → Login

-- generateToken
abbrev pub claims_of : User → Claims
claims_of u = record { user_id = u.id; name = u.username; role = u.role }

abbrev pub signed : User → Option (List ℕ) → Login
signed u none = denied token_failed
signed u (some token) = granted token u

abbrev pub login_found : Crypto → String → Option User → Login
login_found c password none = denied invalid_credentials
login_found c password (some u) =
    let token = signed u (c.sign (claims_of u)) in
    if c.matches u.password_hash password then token else denied invalid_credentials

-- Login: without a name, that of the first user.
unfoldable pub login : Crypto → String → String → Users → Login
unfolding user_by_name
login c name password us =
    login_found c password (user_by_name (if str_eq name "" then "admin" else name) us)

abbrev prefix_first : ℕ → List (List ℕ) → List (List ℕ)
prefix_first c [] = (c ∷ []) ∷ []
prefix_first c (part ∷ parts) = (c ∷ part) ∷ parts

-- `strings.Split` at spaces
unfoldable pub split_spaces : List ℕ → List (List ℕ)
split_spaces [] = [] ∷ []
split_spaces (c ∷ cs) =
    let later = split_spaces cs in if c == 32 then [] ∷ later else prefix_first c later

abbrev pub bearer_of : List (List ℕ) → List ℕ
bearer_of (scheme ∷ token ∷ []) = if text_eq scheme (codes "Bearer") then token else []
bearer_of _ = []

abbrev pub or_query : List ℕ → List ℕ → List ℕ
or_query [] query = query
or_query (c ∷ cs) query = c ∷ cs

pub data Access : Type 0 where
  allowed : Claims → Access
  unauthorized : AuthError → Access

abbrev pub verified : Option Claims → Access
verified none = unauthorized invalid_token
verified (some claims) = allowed claims

abbrev pub with_token : Crypto → List ℕ → Access
with_token c [] = unauthorized authorization_required
with_token c (t ∷ token) = verified (c.verify (t ∷ token))

-- extractClaims, of the Authorization header and the `token` of the query: either is empty where it is
-- not given.
unfoldable pub extract_claims : Crypto → List ℕ → List ℕ → Access
unfolding split_spaces
extract_claims c header query = with_token c (or_query (bearer_of (split_spaces header)) query)

abbrev pub is_among : String → List String → Bool
is_among role [] = false
is_among role (r ∷ rs) = str_eq role r || is_among role rs

-- RequireRole
unfoldable pub require_role : List String → String → Bool
require_role roles role = str_eq role "owner" || is_among role roles
