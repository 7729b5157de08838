-- ===== src/Auth/Owners.antt =====
-- There is always an owner, for backend/auth/middleware.go.
use realmrunner.Common.{◌+◌, ◌≤◌, ◌≡◌, ◌∙◌, refl, inl, inr, ◌⊎◌, String, false, ◌||◌, ◌&&◌, not}
use realmrunner.Common.{some, [], ◌∷◌, leb, if◌then◌else◌, arith}
use realmrunner.Common.{str_eq, str_eq_iff, Bool-cases, Option-cases}
use realmrunner.Auth.{
  User, Users, Crypto, owner_count, role_of, has_user, has_name, insert_user,
  migrate_from_single_password, inserted, create_user, request_user, update_users, update_user,
  remove_user, delete_user, change_password,
}

-- The ids are unique, as the schema has it.
abbrev pub IsTable : Users → Type 0
IsTable [] = Unit
IsTable (u ∷ us) = (has_user u.id us ≡ false) × IsTable us

remove_user-absent : (id : String) (us : Users) → has_user id us ≡ false → remove_user id us ≡ us
unfolding has_user remove_user
remove_user-absent id [] h = refl
remove_user-absent id (u ∷ us) h = ground (arith, remove_user-absent id us)

has_user-remove :
    (gone id : String) (us : Users)
    → has_user id us ≡ false
    → has_user id (remove_user gone us) ≡ false
unfolding has_user remove_user
has_user-remove gone id [] h = refl
has_user-remove gone id (u ∷ us) h = ground (arith, has_user-remove gone id us)

remove_user-IsTable : (id : String) (us : Users) → IsTable us → IsTable (remove_user id us)
unfolding remove_user
remove_user-IsTable id [] h = tt
remove_user-IsTable id (u ∷ us) (a, h) = elim (Bool-cases (str_eq u.id id)) [
  | inl e ↦ rw (remove_user, e) (remove_user-IsTable id us h)
  | inr e ↦ rw (remove_user, e) (has_user-remove id u.id us a, remove_user-IsTable id us h)
]

-- Removing one user takes away at most one owner, and none if its role is another.
owner_count-remove :
    (id : String) (us : Users)
    → IsTable us
    → owner_count us
      ≤ (if str_eq (role_of id us) "owner" then 1 else 0) + owner_count (remove_user id us)
unfolding owner_count role_of remove_user
owner_count-remove id [] h = omega arith
owner_count-remove id (u ∷ us) (a, h) = elim (Bool-cases (str_eq u.id id)) [
  | inl e ↦ ground (arith, e, str_eq_iff u.id id, remove_user-absent id us)
  | inr e ↦ ground (arith, e, owner_count-remove id us h)
]

has_user-update :
    (k id : String) (f : User → User) (us : Users)
    → ((u : User) → (f u).id ≡ u.id)
    → has_user id (update_users k f us) ≡ has_user id us
unfolding has_user update_users
has_user-update k id f [] same = refl
has_user-update k id f (u ∷ us) same = ground (arith, same u, has_user-update k id f us same)

update_users-IsTable :
    (id : String) (f : User → User) (us : Users)
    → ((u : User) → (f u).id ≡ u.id)
    → IsTable us
    → IsTable (update_users id f us)
unfolding update_users
update_users-IsTable id f [] same h = tt
update_users-IsTable id f (u ∷ us) same (a, h) = elim (Bool-cases (str_eq u.id id)) [
  | inl e ↦
      rw (update_users, e)
        (rw (same u) (has_user-update id u.id f us same ∙ a), update_users-IsTable id f us same h)
  | inr e ↦
      rw (update_users, e)
        (has_user-update id u.id f us same ∙ a, update_users-IsTable id f us same h)
]

owner_count-same :
    (id : String) (f : User → User) (us : Users)
    → ((u : User) → (f u).role ≡ u.role)
    → owner_count (update_users id f us) ≡ owner_count us
unfolding owner_count update_users
owner_count-same id f [] same = refl
owner_count-same id f (u ∷ us) same = ground (arith, same u, owner_count-same id f us same)

update_users-absent :
    (id : String) (f : User → User) (us : Users)
    → has_user id us ≡ false
    → update_users id f us ≡ us
unfolding has_user update_users
update_users-absent id f [] h = refl
update_users-absent id f (u ∷ us) h = ground (arith, update_users-absent id f us)

owner_count-update_user :
    (id role : String) (us : Users)
    → IsTable us
    → str_eq (role_of id us) "owner" ≡ false
    → owner_count us ≤ owner_count (update_user id role us)
unfolding owner_count role_of update_user update_users
owner_count-update_user id role [] h e = omega arith
owner_count-update_user id role (u ∷ us) (a, h) e = elim (Bool-cases (str_eq u.id id)) [
  | inl t ↦
      ground
        (arith, t, str_eq_iff u.id id, update_users-absent id (λ u. record u { role = role }) us)
  | inr t ↦ ground (arith, t, owner_count-update_user id role us h)
]

-- What keeps an owner: unique ids, and at least one owner.
abbrev pub HasOwner : Users → Type 0
HasOwner us = IsTable us × (1 ≤ owner_count us)

insert_user-HasOwner :
    (u : User) (us us' : Users) → insert_user u us ≡ some us' → HasOwner us → HasOwner us'
unfolding insert_user owner_count
insert_user-HasOwner u us us' e (t, h) =
    elim (Bool-cases (has_user u.id us || has_name u.username us)) [
      | inl b ↦ absurd (ground (arith, e, b))
      | inr b ↦
          let same : us' ≡ u ∷ us = ground (arith, e, b) in
          rw same ((ground (arith, b), t), ground (arith, h))
    ]

delete_user-HasOwner : (id : String) (us : Users) → HasOwner us → HasOwner (delete_user id us).1
unfolding delete_user
delete_user-HasOwner id us (t, h) =
    elim (Bool-cases (str_eq (role_of id us) "owner" && leb (owner_count us) 1)) [
      | inl e ↦ rw e (t, h)
      | inr e ↦ rw e (remove_user-IsTable id us t, ground (arith, e, owner_count-remove id us t))
    ]

change_password-HasOwner :
    (c : Crypto) (id password : String) (us : Users)
    → HasOwner us
    → HasOwner (change_password c id password us).1
unfolding change_password
change_password-HasOwner c id password us (t, h) = elim (Option-cases (c.hash password)) [
  | inl e ↦ rw e (t, h)
  | inr (x, e) ↦ rw e (
    update_users-IsTable id (λ u. record u { password_hash = x }) us (λ u. refl) t,
    rw (owner_count-same id (λ u. record u { password_hash = x }) us (λ u. refl)) h,
  )
]

inserted-HasOwner :
    (u : User) (us : Users) → HasOwner us → HasOwner (inserted us (insert_user u us)).1
inserted-HasOwner u us h = elim (Option-cases (insert_user u us)) [
  | inl e ↦ rw e h
  | inr (us', e) ↦ rw e (insert_user-HasOwner u us us' e h)
]

create_user-HasOwner :
    (c : Crypto) (id name password role : String) (us : Users)
    → HasOwner us
    → HasOwner (create_user c id name password role us).1
unfolding create_user
create_user-HasOwner c id name password role us h = elim (Option-cases (c.hash password)) [
  | inl e ↦ rw e h
  | inr (x, e) ↦ rw e (inserted-HasOwner _ us h)
]

request_user-HasOwner :
    (c : Crypto) (id name password role : String) (us : Users)
    → HasOwner us
    → HasOwner (request_user c id name password role us).1
unfolding request_user
request_user-HasOwner c id name password role us h =
    let wanted = if str_eq role "" then "viewer" else role in
    elim (Bool-cases (
      not (str_eq wanted "owner")
      && (not (str_eq wanted "admin") && not (str_eq wanted "viewer")))) [
        | inl e ↦ rw e h
        | inr e ↦ rw e (create_user-HasOwner c id name password wanted us h)
      ]

-- The requests that change the table; of the changes of a role, those of a user who is no owner.
pub data Step (c : Crypto) (us : Users) : Users → Type 0 where
  new_user :
      (id name password role : String) → Step c us (request_user c id name password role us).1
  delete : (id : String) → Step c us (delete_user id us).1
  new_password : (id new : String) → Step c us (change_password c id new us).1
  new_role :
      (id role : String)
      → str_eq (role_of id us) "owner" ≡ false
      → Step c us (update_user id role us)

pub data Reach (c : Crypto) (us : Users) : Users → Type 0 where
  here : Reach c us us
  further : {t v : Users} → Reach c us t → Step c t v → Reach c us v

step-HasOwner : (c : Crypto) {us t : Users} → Step c us t → HasOwner us → HasOwner t
unfolding update_user
step-HasOwner c {us} (new_user id name password role) h =
    request_user-HasOwner c id name password role us h
step-HasOwner c {us} (delete id) h = delete_user-HasOwner id us h
step-HasOwner c {us} (new_password id new) h = change_password-HasOwner c id new us h
step-HasOwner c {us} (new_role id role e) (t, h) = (
  update_users-IsTable id (λ u. record u { role = role }) us (λ u. refl) t,
  omega (arith, owner_count-update_user id role us t e),
)

steps-HasOwner : (c : Crypto) {us t : Users} → Reach c us t → HasOwner us → HasOwner t
steps-HasOwner c here h = h
steps-HasOwner c (further before last) h = step-HasOwner c last (steps-HasOwner c before h)

migrated-HasOwner :
    (id password_hash : String) (us : Users)
    → str_eq password_hash "" ≡ false
    → IsTable us
    → (us ≡ []) ⊎ (1 ≤ owner_count us)
    → HasOwner (migrate_from_single_password id password_hash us)
unfolding migrate_from_single_password insert_user has_user has_name owner_count
migrated-HasOwner id password_hash [] e t h = rw e ((refl, tt), omega arith)
migrated-HasOwner id password_hash (u ∷ us) e t (inl h) = cc
migrated-HasOwner id password_hash (u ∷ us) e t (inr h) = (t, h)

-- The program starts with a password hash, and with an empty table of users or one with unique ids and
-- an owner. Then every sequence of creations, deletions and changed passwords, and of changes of the
-- role of a user who is no owner, keeps an owner.
pub Reach-HasOwner :
    (c : Crypto) (id password_hash : String) (us t : Users)
    → str_eq password_hash "" ≡ false
    → IsTable us
    → (us ≡ []) ⊎ (1 ≤ owner_count us)
    → Reach c (migrate_from_single_password id password_hash us) t
    → 1 ≤ owner_count t
Reach-HasOwner c id password_hash us t e table h r =
    (steps-HasOwner c r (migrated-HasOwner id password_hash us e table h)).1
