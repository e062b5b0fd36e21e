-- ===== src/Services/Auth/Granting.antt =====
-- Whom AuthService::authenticate of WebApps/ARServer/src/services/AuthService.cpp gives a session.
use jingjie_ar.Services.Auth.{
  with_user, authenticate, AuthResult, no_result, AuthStore, Crypto, token, password_hash,
  verify_password, open_session, log_in, sign_up,
}
use jingjie_ar.Prelude.{
  ℕ, ◌≡◌, refl, ◌≢◌, inl, inr, Bool, true, false, not, Option, none, some, arith, Bool-cases,
  if_ind, ◌==◌, nat_eq, list_eq,
}
use jingjie_ar.Database.SessionDao.{User}
use jingjie_ar.Text.{Bytes, is_empty}

-- What a result of status 200 says, for the user that was found for the name: an existing user has
-- the password, and a user who was not there is new.
abbrev pub IsGranted : {W : Type 0} → Crypto W → Bytes → Bytes → Option User → AuthResult → Type 0
IsGranted crypto username password none r =
    (r.is_new ≡ true) × (r.username ≡ username) × ((r.user_id == 0) ≡ false)
IsGranted crypto username password (some user) r =
    ((verify_password crypto password user.passwd_hash).0 ≡ true)
    × (r.is_new ≡ false)
    × (r.username ≡ user.username)
    × (r.user_id ≡ user.id)

module _ {W : Type 0} (crypto : Crypto W) (store : AuthStore W) where
  -- The store was asked to make a session for the id and the token of the result, the token being
  -- drawn just before, answered with an id other than 0, and nothing was done after that.
  abbrev pub HasSession : (AuthResult × ℕ) × W → Type 0
  HasSession out =
      (v : W) × ((token crypto v).0 ≡ out.0.0.session_token)
      × (((store.create_session out.0.0.user_id out.0.0.session_token (token crypto v).1).0 == 0)
          ≡ false)
      × (out.1 ≡ (store.create_session out.0.0.user_id out.0.0.session_token (token crypto v).1).1)

  -- A session that is opened names its user, has a token and is in the store.
  open_session-IsOpen :
      (id : ℕ) (name : Bytes) (is_new : Bool) (w : W)
      → (open_session crypto store id name is_new w).0.1 ≡ 200
      → ((open_session crypto store id name is_new w).0.0.user_id ≡ id)
        × ((open_session crypto store id name is_new w).0.0.username ≡ name)
        × ((open_session crypto store id name is_new w).0.0.is_new ≡ is_new)
        × (is_empty (open_session crypto store id name is_new w).0.0.session_token ≡ false)
        × HasSession (open_session crypto store id name is_new w)
  unfolding open_session
  open_session-IsOpen id name is_new w = elim (Bool-cases (is_empty (token crypto w).0)) [
    | inl e ↦ rw e (λ h. ground (arith, h))
    | inr e ↦
        rw e
          (elim (Bool-cases
            ((store.create_session id (token crypto w).0 (token crypto w).1).0 == 0)) [
              | inl z ↦ rw z (λ h. ground (arith, h))
              | inr z ↦ rw z (λ h. (refl, refl, refl, e, (w, refl, z, refl)))
            ])
  ]

  open_session_never_401 :
      (id : ℕ) (name : Bytes) (is_new : Bool) (w : W)
      → (open_session crypto store id name is_new w).0.1 ≢ 401
  unfolding open_session
  open_session_never_401 id name is_new w = elim (Bool-cases (is_empty (token crypto w).0)) [
    | inl e ↦ rw e (λ h. ground (arith, h))
    | inr e ↦
        rw e
          (elim (Bool-cases
            ((store.create_session id (token crypto w).0 (token crypto w).1).0 == 0)) [
              | inl z ↦ rw z (λ h. ground (arith, h))
              | inr z ↦ rw z (λ h. ground (arith, h))
            ])
  ]

  -- A sign-up fails with 503, or opens a session for the user that was made.
  sign_up_cases :
      (P : (AuthResult × ℕ) × W → Type 0) (name password : Bytes) (w : W)
      → ((v : W) → P ((no_result, 503), v))
      → ((id : ℕ) (v : W) → (id == 0) ≡ false → P (open_session crypto store id name true v))
      → P (sign_up crypto store name password w)
  unfolding sign_up
  sign_up_cases P name password w bad good =
      let hashed : Bytes × W = password_hash crypto password w in
      let made : ℕ × W = store.create_user name hashed.0 hashed.1 in
      if_ind P (is_empty hashed.0) (λ e. bad hashed.1)
        (λ e. if_ind P (made.0 == 0) (λ z. bad made.1) (λ z. good made.0 made.1 z))

  -- A log-in refuses the password, fails with 503, or opens a session for the user.
  log_in_cases :
      (P : (AuthResult × ℕ) × W → Type 0) (password : Bytes) (user : User) (w : W)
      → ((verify_password crypto password user.passwd_hash).0 ≡ false → P ((no_result, 401), w))
      → ((v : W) → P ((no_result, 503), v))
      → ((v : W)
          → (verify_password crypto password user.passwd_hash).0 ≡ true
          → P (open_session crypto store user.id user.username false v))
      → P (log_in crypto store password user w)
  unfolding log_in
  log_in_cases P password user w refused bad good =
      let verdict : Bool × Bool = verify_password crypto password user.passwd_hash in
      let upgraded : Bytes × W = password_hash crypto password w in
      let updated : Bool × W = store.update_password_hash user.id upgraded.0 upgraded.1 in
      if_ind P (not verdict.0) (λ e. refused (ground (arith, e)))
        (λ e.
          let yes2 : verdict.0 ≡ true = ground (arith, e) in
          if_ind P (not verdict.1) (λ u. good w yes2)
            (λ u.
              if_ind P (is_empty upgraded.0) (λ x. bad upgraded.1)
                (λ x. if_ind P (not updated.0) (λ y. bad updated.1) (λ y. good updated.1 yes2))))

  abbrev Good : Bytes → Bytes → Option User → (AuthResult × ℕ) × W → Type 0
  Good name password found out =
      out.0.1 ≡ 200
      → IsGranted crypto name password found out.0.0
        × (is_empty out.0.0.session_token ≡ false)
        × HasSession out

  with_user-Good :
      (name password : Bytes) (found : Option User) (w : W)
      → Good name password found (with_user crypto store name password found w)
  unfolding with_user
  with_user-Good name password none w =
      sign_up_cases (Good name password none) name password w (λ v h. ground (arith, h))
        (λ id v z h.
          let o = open_session-IsOpen id name true v h in ((o.2, o.1, rw o.0 z), o.3, o.4))
  with_user-Good name password (some user) w =
      log_in_cases (Good name password (some user)) password user w (λ e h. ground (arith, h))
        (λ v h. ground (arith, h))
        (λ v e h.
          let o = open_session-IsOpen user.id user.username false v h in
          ((e, o.2, o.1, o.0), o.3, o.4))

  -- When authenticate answers 200, the last thing it did was a createSession for the id and the
  -- token of the result that the store answered with an id other than 0, the token was drawn for it
  -- and is not empty, and either the name was found, the password verifies against the stored hash of that user and the result is
  -- the id and the name of that user and not marked new, or the name was not found and the result is
  -- marked new, with the name that was given and an id other than 0.
  pub authenticate-IsGranted :
      (name password : Bytes) (w : W)
      → (authenticate crypto (some store) name password w).0.1 ≡ 200
      → IsGranted crypto name password
          (store.find_user name w).0
          (authenticate crypto (some store) name password w).0.0
        × (is_empty (authenticate crypto (some store) name password w).0.0.session_token ≡ false)
        × HasSession (authenticate crypto (some store) name password w)
  unfolding authenticate
  authenticate-IsGranted name password w =
      with_user-Good name password (store.find_user name w).0 (store.find_user name w).1

  -- The user that is found and refused.
  abbrev pub Refused : Bytes → Option User → Type 0
  Refused password none = ⊥
  Refused password (some user) = (verify_password crypto password user.passwd_hash).0 ≡ false

  abbrev Unauthorized : Bytes → Option User → W → (AuthResult × ℕ) × W → Type 0
  Unauthorized password found w out =
      out.0.1 ≡ 401 → Refused password found × (out ≡ ((no_result, 401), w))

  with_user-Unauthorized :
      (name password : Bytes) (found : Option User) (w : W)
      → Unauthorized password found w (with_user crypto store name password found w)
  unfolding with_user
  with_user-Unauthorized name password none w =
      sign_up_cases (Unauthorized password none w) name password w (λ v h. ground (arith, h))
        (λ id v z h. absurd (open_session_never_401 id name true v h))
  with_user-Unauthorized name password (some user) w =
      log_in_cases (Unauthorized password (some user) w) password user w (λ e h. (e, refl))
        (λ v h. ground (arith, h))
        (λ v e h. absurd (open_session_never_401 user.id user.username false v h))

  -- authenticate answers 401 only when the name was found and the password does not verify against
  -- the stored hash of that user; the result is then empty and, after the search for the user,
  -- nothing was read or written any more.
  pub authenticate-Refused :
      (name password : Bytes) (w : W)
      → (authenticate crypto (some store) name password w).0.1 ≡ 401
      → Refused password (store.find_user name w).0
        × (authenticate crypto (some store) name password w
            ≡ ((no_result, 401), (store.find_user name w).1))
  unfolding authenticate
  authenticate-Refused name password w =
      with_user-Unauthorized name password (store.find_user name w).0 (store.find_user name w).1
