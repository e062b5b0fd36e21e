-- ===== src/Services/Auth/Tests.antt =====
-- Users on which the theorems on `authenticate` apply.
use jingjie_ar.Prelude.{
  ℕ, suc, ◌≡◌, refl, sym, subst, ◌≢◌, true, false, some, List, [], ◌∷◌, ◌++◌, some_inj, ◌==◌,
  ==_refl, nat_eq, list_eq, lookup, insert, lookup-insert_self, length, take, replicate,
}
use jingjie_ar.Services.Auth.Granting.{
  IsGranted, HasSession, Refused, authenticate-IsGranted, authenticate-Refused,
}
use jingjie_ar.Services.Auth.Returning.{IsArgon, IsUserStore, authenticate-authenticate, HasHash}
use jingjie_ar.Services.Auth.{
  no_result, AuthStore, Crypto, token, password_hash, legacy_password_hash, verify_password,
  open_session, log_in, sign_up, with_user, authenticate, argon_mark, json,
}
use jingjie_ar.Services.Json.{escape, escape_character}
use jingjie_ar.Session.Token.{to_hex, hex_digit}
use jingjie_ar.Database.SessionDao.{User}
use jingjie_ar.Text.{Bytes, bytes, is_empty}

program : Unit {0}
unfolding token password_hash legacy_password_hash verify_password open_session log_in sign_up
    with_user authenticate json escape escape_character to_hex hex_digit lookup insert
program = tt

abbrev Users : Type 0
Users = List (Bytes × User)

-- A hash that is the password itself, and random bytes that are always the same.
abbrev plain_crypto : Crypto Users
plain_crypto = record {
  random = λ n w. (some (replicate n 7), w);
  argon2_hash = λ password salt. some (argon_mark ++ password);
  argon2_verify = λ hash password. hash == argon_mark ++ password;
  sha256 = λ password. password;
}

abbrev new_user : ℕ → Bytes → Bytes → User
new_user id name hash = record { id = id; username = name; passwd_hash = hash; created_at = [] }

abbrev list_store : AuthStore Users
list_store = record {
  find_user = λ name w. (lookup name w, w);
  create_user =
      λ name hash w. (suc (length w), insert name (new_user (suc (length w)) name hash) w);
  update_password_hash = λ id hash w. (true, w);
  create_session = λ id t w. (1, w);
}

plain_crypto-IsArgon : IsArgon plain_crypto
plain_crypto-IsArgon password salt hash h =
    subst (λ x. ((take 10 x == argon_mark) ≡ true) × ((x == argon_mark ++ password) ≡ true))
      (some_inj h) (refl, ==_refl (argon_mark ++ password))

HasHash-lookup :
    (name hash : Bytes) (id : ℕ) (w : Users)
    → HasHash hash (lookup name (insert name (new_user id name hash) w))
HasHash-lookup name hash id w =
    subst (HasHash hash) (sym (lookup-insert_self name (new_user id name hash) w)) refl

list_store-IsUserStore : IsUserStore plain_crypto list_store lookup
list_store-IsUserStore = record {
  finds_own = λ name w u h. h;
  create_stores = λ name hash w h. HasHash-lookup name hash (suc (length w)) w;
  session_keeps = λ id t name w. refl;
  random_keeps = λ n name w. refl;
}

abbrev some_users : Users
some_users = (bytes "ann", new_user 1 (bytes "ann") (argon_mark ++ bytes "pw")) ∷ []

authenticate-IsGranted_example :
    IsGranted plain_crypto
      (bytes "ann")
      (bytes "pw")
      (some (new_user 1 (bytes "ann") (argon_mark ++ bytes "pw")))
      (authenticate plain_crypto (some list_store) (bytes "ann") (bytes "pw") some_users).0.0
    × (is_empty
          (authenticate plain_crypto
            (some list_store)
            (bytes "ann")
            (bytes "pw")
            some_users).0.0.session_token
        ≡ false)
    × HasSession plain_crypto list_store
        (authenticate plain_crypto (some list_store) (bytes "ann") (bytes "pw") some_users)
unfolding program
authenticate-IsGranted_example =
    authenticate-IsGranted plain_crypto list_store (bytes "ann") (bytes "pw") some_users refl

authenticate-Refused_example :
    Refused plain_crypto list_store
      (bytes "wrong")
      (some (new_user 1 (bytes "ann") (argon_mark ++ bytes "pw")))
    × (authenticate plain_crypto (some list_store) (bytes "ann") (bytes "wrong") some_users
        ≡ ((no_result, 401), some_users))
unfolding program
authenticate-Refused_example =
    authenticate-Refused plain_crypto list_store (bytes "ann") (bytes "wrong") some_users refl

authenticate-authenticate_example :
    (authenticate plain_crypto
      (some list_store)
      (bytes "bob")
      (bytes "pw")
      (authenticate plain_crypto (some list_store) (bytes "bob") (bytes "pw") some_users).1).0.1
    ≢ 401
unfolding program
authenticate-authenticate_example =
    authenticate-authenticate plain_crypto list_store lookup plain_crypto-IsArgon
      list_store-IsUserStore (bytes "bob") (bytes "pw") some_users refl refl

-- A stored hash of the old kind is accepted, and needs an upgrade.
legacy_verified : verify_password plain_crypto (b'a' ∷ []) (bytes "sha256:61") ≡ (true, true)
unfolding program
legacy_verified = refl
