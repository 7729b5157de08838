-- ===== src/Auth/Sessions.antt =====
-- From a user who is created to what the user's token lets through, for backend/auth/middleware.go.
use realmrunner.Common.{ℕ, ◌==◌, ◌≡◌, refl, ap, inl, inr, String, Bool, true, false}
use realmrunner.Common.{some, List, [], ◌∷◌, ◌++◌, if◌then◌else◌, arith}
use realmrunner.Common.{str_eq, str_eq_refl, Bool-cases}
use realmrunner.Common.Text.{codes}
use realmrunner.Auth.{
  User, Users, Claims, Crypto, granted, allowed, user_by_name, has_user, has_name, insert_user,
  create_user, claims_of, login, split_spaces, verified, extract_claims,
}

-- What the program relies on: a hash matches the password that it was made from, and a token that was
-- signed verifies, for as long as it has not expired, and is one word.
pub record IsSound (c : Crypto) : Type 0 where
  pub matches_own : (password h : String) → c.hash password ≡ some h → c.matches h password ≡ true
  pub verifies_own : (x : Claims) (token : List ℕ) → c.sign x ≡ some token → c.verify token ≡ some x

-- No spaces in it, and not empty.
abbrev pub is_word : List ℕ → Bool
is_word [] = true
is_word (c ∷ cs) = if c == 32 then false else is_word cs

split_spaces-word : (token : List ℕ) → is_word token ≡ true → split_spaces token ≡ token ∷ []
unfolding split_spaces
split_spaces-word [] h = refl
split_spaces-word (c ∷ cs) h = elim (Bool-cases (c == 32)) [
  | inl e ↦ absurd (ground (arith, e))
  | inr e ↦ rw (split_spaces, e) (rw (split_spaces-word cs (rw e at h)) refl)
]

-- The Authorization header of a token.
abbrev pub bearer : List ℕ → List ℕ
bearer token = codes "Bearer" ++ 32 ∷ token

split_spaces-bearer :
    (token : List ℕ)
    → is_word token ≡ true
    → split_spaces (bearer token) ≡ codes "Bearer" ∷ token ∷ []
unfolding split_spaces
split_spaces-bearer token h = rw (split_spaces-word token h) refl

-- A user of the table who logs in with a password that matches its hash gets its token.
login-allowed :
    (c : Crypto) (name password : String) (us : Users) (u : User) (token : List ℕ)
    → str_eq name "" ≡ false
    → user_by_name name us ≡ some u
    → c.matches u.password_hash password ≡ true
    → c.sign (claims_of u) ≡ some token
    → login c name password us ≡ granted token u
unfolding login
login-allowed c name password us u token named found right signs =
    rw (named, found) (rw (right, signs) refl)

extract_claims-bearer :
    (c : Crypto) (b : ℕ) (bs query : List ℕ) (x : Claims)
    → is_word (b ∷ bs) ≡ true
    → c.verify (b ∷ bs) ≡ some x
    → extract_claims c (bearer (b ∷ bs)) query ≡ allowed x
unfolding extract_claims
extract_claims-bearer c b bs query x h e = rw (split_spaces-bearer (b ∷ bs) h) (ap verified e)

user_by_name-new : (u : User) (us : Users) → user_by_name u.username (u ∷ us) ≡ some u
unfolding user_by_name
user_by_name-new u us = rw (str_eq_refl u.username) refl

-- A user who is created under a new id and name, which is not empty, logs in with the password and gets
-- a token; the token, if it is one word, as the Authorization header gives the id, the name and the role
-- of that user back. It rests on what bcrypt and the tokens promise.
pub create_user-login :
    (c : Crypto) (id name password role h : String) (b : ℕ) (bs query : List ℕ) (us : Users)
    → IsSound c
    → str_eq name "" ≡ false
    → has_user id us ≡ false
    → has_name name us ≡ false
    → c.hash password ≡ some h
    → c.sign (record { user_id = id; name = name; role = role }) ≡ some (b ∷ bs)
    → is_word (b ∷ bs) ≡ true
    → (u : User) × (login c name password (create_user c id name password role us).1
        ≡ granted (b ∷ bs) u)
      × (u.role ≡ role)
      × (extract_claims c (bearer (b ∷ bs)) query ≡ allowed (claims_of u))
unfolding create_user insert_user
create_user-login c id name password role h b bs query us sound named fresh new hashed signs word =
    let u : User = record { id = id; username = name; password_hash = h; role = role } in
    (
      u,
      rw hashed (
          rw (fresh, new)
            (login-allowed c name password (u ∷ us) u (b ∷ bs) named (user_by_name-new u us)
              (sound.matches_own password h hashed) signs)),
      refl,
      extract_claims-bearer c b bs query (claims_of u) word
          (sound.verifies_own (claims_of u) (b ∷ bs) signs),
    )
