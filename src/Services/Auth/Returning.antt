-- ===== src/Services/Auth/Returning.antt =====
-- A user who comes back: AuthService::authenticate of WebApps/ARServer/src/services/AuthService.cpp
-- after it has made the user.
use jingjie_ar.Services.Auth.Granting.{authenticate-Refused, Refused}
use jingjie_ar.Services.Auth.{
  with_user, authenticate, sign_up, or_empty, hash_of, AuthResult, AuthStore, Crypto, token,
  password_hash, verify_password, open_session, argon_mark,
}
use jingjie_ar.Prelude.{
  ℕ, ◌≡◌, refl, ap, ◌∙◌, ◌≢◌, Bool, true, false, Option, none, some, arith, if_ind, some_inj, ◌==◌,
  nat_eq, list_eq, take,
}
use jingjie_ar.Database.SessionDao.{User}
use jingjie_ar.Text.{Bytes, is_empty}

-- What argon2_hash encodes is marked and verifies the password.
abbrev pub IsArgon : {W : Type 0} → Crypto W → Type 0
IsArgon crypto =
    (password salt hash : Bytes)
    → crypto.argon2_hash password salt ≡ some hash
    → ((take 10 hash == argon_mark) ≡ true) × (crypto.argon2_verify hash password ≡ true)

-- Whether a stored user has a password hash of the given text.
abbrev pub HasHash : Bytes → Option User → Type 0
HasHash hash none = ⊥
HasHash hash (some user) = user.passwd_hash ≡ hash

-- What the store keeps: `user` is the row of a name.
pub record IsUserStore {W : Type 0} (crypto : Crypto W) (store : AuthStore W)
    (user : Bytes → W → Option User) : Type 0 where
  pub finds_own :
      (name : Bytes) (w : W) (u : User) → (store.find_user name w).0 ≡ some u → user name w ≡ some u
  pub create_stores :
      (name hash : Bytes) (w : W)
      → ((store.create_user name hash w).0 == 0) ≡ false
      → HasHash hash (user name (store.create_user name hash w).1)
  pub session_keeps :
      (id : ℕ) (t name : Bytes) (w : W) → user name (store.create_session id t w).1 ≡ user name w
  pub random_keeps : (n : ℕ) (name : Bytes) (w : W) → user name (crypto.random n w).1 ≡ user name w

module _ {W : Type 0} (crypto : Crypto W) (store : AuthStore W) (user : Bytes → W → Option User)
    (argon : IsArgon crypto) (laws : IsUserStore crypto store user) where
  -- Whether the row of a name verifies a password.
  abbrev Knows : Bytes → Option User → Type 0
  Knows password none = ⊥
  Knows password (some u) = (verify_password crypto password u.passwd_hash).0 ≡ true

  open_session_keeps :
      (id : ℕ) (name : Bytes) (is_new : Bool) (q : Bytes) (w : W)
      → user q (open_session crypto store id name is_new w).1 ≡ user q w
  unfolding open_session token
  open_session_keeps id name is_new q w =
      let drawn : Bytes × W = token crypto w in
      let made : ℕ × W = store.create_session id drawn.0 drawn.1 in
      let one : user q drawn.1 ≡ user q w = laws.random_keeps 32 q w in
      let two : user q made.1 ≡ user q w = laws.session_keeps id drawn.0 q drawn.1 ∙ one in
      if_ind (λ (x : (AuthResult × ℕ) × W). user q x.1 ≡ user q w) (is_empty drawn.0) (λ e. one)
        (λ e.
          if_ind (λ (x : (AuthResult × ℕ) × W). user q x.1 ≡ user q w) (made.0 == 0) (λ z. two)
            (λ z. two))

  verify_hash :
      (password salt hash : Bytes)
      → crypto.argon2_hash password salt ≡ some hash
      → (verify_password crypto password hash).0 ≡ true
  unfolding verify_password
  verify_hash password salt hash h =
      rw (argon password salt hash h).0 (argon password salt hash h).1

  verify_password_hash :
      (password : Bytes) (w : W)
      → is_empty (password_hash crypto password w).0 ≡ false
      → (verify_password crypto password (password_hash crypto password w).0).0 ≡ true
  unfolding password_hash
  verify_password_hash password w = from_salt (crypto.random 16 w).0
    where
      from_encoded :
          (salt : Bytes) (o : Option Bytes)
          → crypto.argon2_hash password salt ≡ o
          → is_empty (or_empty o) ≡ false
          → (verify_password crypto password (or_empty o)).0 ≡ true
      from_encoded salt none e h = ground (arith, h)
      from_encoded salt (some hash) e h = verify_hash password salt hash e

      from_salt :
          (o : Option Bytes)
          → is_empty (hash_of crypto password o) ≡ false
          → (verify_password crypto password (hash_of crypto password o)).0 ≡ true
      from_salt none h = ground (arith, h)
      from_salt (some salt) h = from_encoded salt (crypto.argon2_hash password salt) refl h

  Knows-HasHash :
      (password hash : Bytes) (o : Option User)
      → (verify_password crypto password hash).0 ≡ true
      → HasHash hash o
      → Knows password o
  Knows-HasHash password hash none v h = h
  Knows-HasHash password hash (some u) v h = rw h v

  abbrev Known : Bytes → Bytes → (AuthResult × ℕ) × W → Type 0
  Known name password out = out.0.1 ≡ 200 → Knows password (user name out.1)

  sign_up-Known :
      (name password : Bytes) (w : W) → Known name password (sign_up crypto store name password w)
  unfolding sign_up
  sign_up-Known name password w =
      let hashed : Bytes × W = password_hash crypto password w in
      let made : ℕ × W = store.create_user name hashed.0 hashed.1 in
      if_ind (Known name password) (is_empty hashed.0) (λ e h. ground (arith, h))
        (λ e.
          if_ind (Known name password) (made.0 == 0) (λ z h. ground (arith, h))
            (λ z h. rw (open_session_keeps made.0 name true name made.1) (
              Knows-HasHash password hashed.0 (user name made.1) (verify_password_hash password w e)
                (laws.create_stores name hashed.0 hashed.1 z))))

  Refused-Knows :
      (password : Bytes) (found own : Option User)
      → ((u : User) → found ≡ some u → own ≡ some u)
      → Knows password own
      → Refused crypto store password found
      → ⊥
  Refused-Knows password none own f k r = r
  Refused-Knows password (some u) own f k r = clash own (f u refl) k
    where
      clash : (o : Option User) → o ≡ some u → Knows password o → ⊥
      clash none e h = h
      clash (some v) e h =
          ground
            (arith, r, h, ap (λ x. (verify_password crypto password x.passwd_hash).0) (some_inj e))

  not_refused :
      (name password : Bytes) (w : W)
      → Knows password (user name w)
      → (authenticate crypto (some store) name password w).0.1 ≢ 401
  not_refused name password w k h =
      Refused-Knows password (store.find_user name w).0 (user name w)
        (λ u e. laws.finds_own name w u e) k (authenticate-Refused crypto store name password w h).0

  with_user-Known :
      (name password : Bytes) (found : Option User) (w : W)
      → found ≡ none
      → Known name password (with_user crypto store name password found w)
  unfolding with_user
  with_user-Known name password none w e = sign_up-Known name password w
  with_user-Known name password (some u) w e = ground (arith, e)

  -- When authenticate has made a user, since the name was not found, and answered 200, then the same
  -- name and password are not answered 401 afterwards, whatever the store then finds for the name.
  pub authenticate-authenticate :
      (name password : Bytes) (w : W)
      → (store.find_user name w).0 ≡ none
      → (authenticate crypto (some store) name password w).0.1 ≡ 200
      → (authenticate crypto
          (some store)
          name
          password
          (authenticate crypto (some store) name password w).1).0.1
        ≢ 401
  authenticate-authenticate name password w new ok =
      not_refused name password (authenticate crypto (some store) name password w).1 (
        unfold authenticate in
        with_user-Known name password (store.find_user name w).0 (store.find_user name w).1 new ok)
