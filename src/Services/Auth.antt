-- ===== src/Services/Auth.antt =====
-- Signing up and logging in: WebApps/ARServer/src/services/AuthService.cpp and DaoAuthStore.cpp. The
-- libraries argon2 and OpenSSL and the random numbers of the system are parameters; a callback is the
-- result, over the world W of the store.
pub mod Granting
pub mod Returning
mod Tests
use jingjie_ar.Prelude.{
  ℕ, zero, suc, ◌+◌, ◌-◌, ◌*◌, ◌/◌, ◌%◌, ◌^◌, ◌≤◌, ◌<◌, min, max, ◌≡◌, refl, sym, ap, ap₂, ◌∙◌,
  subst, ◌≢◌, ◌↔◌, ◌⊎◌, inl, inr, Bool, true, false, not, ◌&&◌, ◌||◌, Option, none, some, List, [],
  ◌∷◌, ◌++◌, map, reverse, append-nil, append_assoc, reverse-cons, arith, ltb, leb, if◌then◌else◌,
  ltb→lt, lt→ltb, leb→le, nat_beq_iff, tests, Bool-cases, if_ind, Option-cases, some_inj, Eq, ◌==◌,
  ==_iff, ==_refl, nat_eq, list_eq, lookup, insert, erase, has_key, lookup-insert,
  lookup-insert_self, lookup-erase, has_key-insert, IsMap, insert-IsMap, insert_new, AreApart,
  AreApart-insert, AreApart-nil, length, get_elem?, set, get_or, take, drop, replicate,
  length-append, length-take, length-drop, length-replicate, length-map, take-append-drop,
  drop_of_length-le, take_of_length-le, drop_nil, take_nil, drop-drop, drop-take, take-take_le,
  drop-append_le, take-append_le, take-append_ge, drop-append_ge, take-append_length,
  drop-append_length,
}
use jingjie_ar.Database.SessionDao.{
  User, find_user_by_username, create_user, update_password_hash, create_session,
}
use jingjie_ar.Database.{MySql}
use jingjie_ar.Services.Json.{escape}
use jingjie_ar.Session.Token.{to_hex}
use jingjie_ar.Http.Response.{decimal}
use jingjie_ar.Text.{Bytes, bytes, is_empty}

pub record AuthResult : Type 0 where
  pub username : Bytes
  pub user_id : ℕ
  pub session_token : Bytes
  pub is_new : Bool

abbrev pub no_result : AuthResult
no_result = record { username = []; user_id = 0; session_token = []; is_new = false }

-- AuthStore
pub record AuthStore (W : Type 0) : Type 0 where
  pub find_user : Bytes → W → Option User × W
  pub create_user : Bytes → Bytes → W → ℕ × W
  pub update_password_hash : ℕ → Bytes → W → Bool × W
  pub create_session : ℕ → Bytes → W → ℕ × W

-- DaoAuthStore, without a DAO if that is null.
abbrev pub dao_auth_store : {D : Type 0} → Option (MySql D) → AuthStore D
dao_auth_store none = record {
  find_user = λ name d. (none, d);
  create_user = λ name hash d. (0, d);
  update_password_hash = λ id hash d. (false, d);
  create_session = λ id token d. (0, d);
}
dao_auth_store (some sql) = record {
  find_user = find_user_by_username sql;
  create_user = create_user sql;
  update_password_hash = update_password_hash sql;
  create_session = λ id token. create_session sql id token [];
}

-- What is asked of the libraries: `random n` is what secureRandom fills; `argon2_hash` is given the
-- password and the salt, and gives the encoded hash; `argon2_verify` the encoded hash and the password.
pub record Crypto (W : Type 0) : Type 0 where
  pub random : ℕ → W → Option Bytes × W
  pub argon2_hash : Bytes → Bytes → Option Bytes
  pub argon2_verify : Bytes → Bytes → Bool
  pub sha256 : Bytes → Bytes

abbrev pub argon_mark : Bytes
argon_mark = bytes "$argon2id$"

abbrev pub legacy_mark : Bytes
legacy_mark = bytes "sha256:"

-- AuthService::json
unfoldable pub json : AuthResult → Bytes
json r =
    bytes "{"
    ++ b'"' ∷ bytes "isNew"
    ++ b'"' ∷ b':' ∷ (if r.is_new then bytes "true" else bytes "false")
    ++ b',' ∷ b'"' ∷ bytes "username"
    ++ b'"' ∷ b':' ∷ b'"' ∷ escape r.username
    ++ b'"' ∷ b',' ∷ b'"' ∷ bytes "userId"
    ++ b'"' ∷ b':' ∷ decimal r.user_id
    ++ b',' ∷ b'"' ∷ bytes "token"
    ++ b'"' ∷ b':' ∷ b'"' ∷ escape r.session_token
    ++ b'"' ∷ bytes "}"

abbrev pub or_empty : Option Bytes → Bytes
or_empty none = []
or_empty (some s) = s

module _ {W : Type 0} (crypto : Crypto W) where
  -- The bytes of the token in hexadecimal; the empty text where no random bytes could be had.
  abbrev token_of : Option Bytes → Bytes
  token_of none = []
  token_of (some s) = to_hex s

  -- AuthService::token
  unfoldable pub token : W → Bytes × W
  token w = let out : Option Bytes × W = crypto.random 32 w in (token_of out.0, out.1)

  abbrev pub hash_of : Bytes → Option Bytes → Bytes
  hash_of password none = []
  hash_of password (some salt) = or_empty (crypto.argon2_hash password salt)

  -- AuthService::passwordHash
  unfoldable pub password_hash : Bytes → W → Bytes × W
  password_hash password w =
      let out : Option Bytes × W = crypto.random 16 w in (hash_of password out.0, out.1)

  -- AuthService::legacyPasswordHash
  unfoldable pub legacy_password_hash : Bytes → Bytes
  legacy_password_hash password = legacy_mark ++ to_hex (crypto.sha256 password)

  -- AuthService::verifyPassword: whether the password matches, and needsUpgrade.
  unfoldable pub verify_password : Bytes → Bytes → Bool × Bool
  verify_password password hash =
      let matches : Bool = legacy_password_hash password == hash in
      if take 10 hash == argon_mark
      then (crypto.argon2_verify hash password, false)
      else if take 7 hash == legacy_mark
      then (matches, matches)
      else (false, false)

  -- AuthService::createSession
  unfoldable pub open_session : AuthStore W → ℕ → Bytes → Bool → W → (AuthResult × ℕ) × W
  open_session store user_id username is_new w =
      let drawn : Bytes × W = token w in
      let made : ℕ × W = store.create_session user_id drawn.0 drawn.1 in
      if is_empty drawn.0
      then ((no_result, 503), drawn.1)
      else if made.0 == 0
      then ((no_result, 503), made.1)
      else (
        (
          record {
            username = username;
            user_id = user_id;
            session_token = drawn.0;
            is_new = is_new;
          },
          200,
        ),
        made.1,
      )

  -- The branch of a user who is there.
  unfoldable pub log_in : AuthStore W → Bytes → User → W → (AuthResult × ℕ) × W
  log_in store password user w =
      let verdict : Bool × Bool = verify_password password user.passwd_hash in
      let upgraded : Bytes × W = password_hash password w in
      let updated : Bool × W = store.update_password_hash user.id upgraded.0 upgraded.1 in
      if not verdict.0
      then ((no_result, 401), w)
      else if not verdict.1
      then open_session store user.id user.username false w
      else if is_empty upgraded.0
      then ((no_result, 503), upgraded.1)
      else if not updated.0
      then ((no_result, 503), updated.1)
      else open_session store user.id user.username false updated.1

  -- The branch of a name that no user has.
  unfoldable pub sign_up : AuthStore W → Bytes → Bytes → W → (AuthResult × ℕ) × W
  sign_up store username password w =
      let hashed : Bytes × W = password_hash password w in
      let made : ℕ × W = store.create_user username hashed.0 hashed.1 in
      if is_empty hashed.0
      then ((no_result, 503), hashed.1)
      else if made.0 == 0
      then ((no_result, 503), made.1)
      else open_session store made.0 username true made.1

  -- The callback that authenticate gives to findUser.
  unfoldable pub with_user : AuthStore W → Bytes → Bytes → Option User → W → (AuthResult × ℕ) × W
  with_user store username password none w = sign_up store username password w
  with_user store username password (some user) w = log_in store password user w

  -- AuthService::authenticate
  unfoldable pub authenticate : Option (AuthStore W) → Bytes → Bytes → W → (AuthResult × ℕ) × W
  authenticate none username password w = ((no_result, 503), w)
  authenticate (some store) username password w =
      let found : Option User × W = store.find_user username w in
      with_user store username password found.0 found.1
