-- ===== src/Database/SessionDao.antt =====
-- Users and sessions in MySQL: include/db/SessionDAO.h and src/db/SessionDAO.cpp. A callback is the
-- result; the C interface of MySQL is a parameter.

pub mod Revoked
pub mod Rows
pub mod Sample
pub mod Table
mod Tests
use jingjie_ar.Prelude.{
  ℕ, zero, suc, ◌+◌, ◌-◌, ◌*◌, ◌/◌, ◌%◌, ◌^◌, ◌≤◌, ◌<◌, min, max, ◌≡◌, refl, sym, ap, ap₂, ◌∙◌,
  subst, ◌≢◌, ◌↔◌, ◌⊎◌, inl, inr, Bool, true, false, not, ◌&&◌, ◌||◌, Option, none, some, List, [],
  ◌∷◌, ◌++◌, map, reverse, append-nil, append_assoc, reverse-cons, arith, ltb, leb, if◌then◌else◌,
  ltb→lt, lt→ltb, leb→le, nat_beq_iff, tests, Bool-cases, if_ind, Option-cases, some_inj, Eq, ◌==◌,
  ==_iff, ==_refl, nat_eq, list_eq, lookup, insert, erase, has_key, lookup-insert,
  lookup-insert_self, lookup-erase, has_key-insert, IsMap, insert-IsMap, insert_new, AreApart,
  AreApart-insert, AreApart-nil, length, get_elem?, set, get_or, take, drop, replicate,
  length-append, length-take, length-drop, length-replicate, length-map, take-append-drop,
  drop_of_length-le, take_of_length-le, drop_nil, take_nil, drop-drop, drop-take, take-take_le,
  drop-append_le, take-append_le, take-append_ge, drop-append_ge, take-append_length,
  drop-append_length,
}
use jingjie_ar.Database.{
  Value, number, signed, text, Answer, MySql, statement, bound_statement, insert_id, affected_rows,
  rows_of, succeeded,
}
use jingjie_ar.Caches.SessionCache.{DbSession}
use jingjie_ar.Text.{Bytes, bytes}

pub record User : Type 0 where
  pub id : ℕ
  pub username : Bytes
  pub passwd_hash : Bytes
  pub created_at : Bytes

abbrev pub user_by_id_sql : Bytes
user_by_id_sql = bytes "SELECT id, username, passwd_hash, created_at FROM users WHERE id = ?"

abbrev pub user_by_name_sql : Bytes
user_by_name_sql =
    bytes "SELECT id, username, passwd_hash, created_at FROM users WHERE username = ?"

abbrev pub create_user_sql : Bytes
create_user_sql = bytes "INSERT INTO users (username, passwd_hash) VALUES (?, ?)"

abbrev pub update_hash_sql : Bytes
update_hash_sql = bytes "UPDATE users SET passwd_hash = ? WHERE id = ?"

abbrev pub session_by_token_sql : Bytes
session_by_token_sql =
    bytes
      "SELECT id, session_token, user_id, scene_id, status, created_at, updated_at FROM sessions WHERE session_token = ? ORDER BY id DESC LIMIT 1"

abbrev pub create_session_sql : Bytes
create_session_sql =
    bytes "INSERT INTO sessions (session_token, user_id, scene_id, status) VALUES (?, ?, ?, 1)"

abbrev pub update_scene_sql : Bytes
update_scene_sql = bytes "UPDATE sessions SET scene_id = ?, status = 1 WHERE id = ?"

abbrev pub end_session_sql : Bytes
end_session_sql = bytes "UPDATE sessions SET scene_id = '', status = 0 WHERE id = ?"

abbrev pub revoke_sql : Bytes
revoke_sql =
    bytes "UPDATE sessions SET scene_id = '', status = 0 WHERE session_token = ? AND status = 1"

abbrev pub active_by_user_sql : Bytes
active_by_user_sql =
    bytes
      "SELECT id, session_token, user_id, scene_id, status, created_at, updated_at FROM sessions WHERE user_id = ? AND status = 1"

-- The user that the columns of a row bind.
unfoldable pub user_of : List Value → Option User
user_of (number id ∷ text name ∷ text hash ∷ text created ∷ []) =
    some (record { id = id; username = name; passwd_hash = hash; created_at = created })
user_of row = none

-- The session that the columns of a row bind.
unfoldable pub session_of : List Value → Option DbSession
session_of
      (number id
        ∷ text token
        ∷ number user
        ∷ text scene
        ∷ signed st
        ∷ text created
        ∷ text updated
        ∷ []) =
    some (record {
      id = id;
      session_token = token;
      user_id = user;
      scene_id = scene;
      status = st;
      created_at = created;
      updated_at = updated;
    })
session_of row = none

-- The first row, if one is fetched.
abbrev pub first_user : List (List Value) → Option User
first_user [] = none
first_user (row ∷ rows) = user_of row

abbrev pub first_session : List (List Value) → Option DbSession
first_session [] = none
first_session (row ∷ rows) = session_of row

abbrev with_session : Option DbSession → List DbSession → List DbSession
with_session none ss = ss
with_session (some s) ss = s ∷ ss

-- The loop over the rows of findActiveSessionsByUser.
unfoldable pub sessions_of : List (List Value) → List DbSession
sessions_of [] = []
sessions_of (row ∷ rows) = with_session (session_of row) (sessions_of rows)

module _ {D : Type 0} (sql : MySql D) where
  -- SessionDAO::findUserById
  unfoldable pub find_user_by_id : ℕ → D → Option User × D
  find_user_by_id user_id d =
      let out : Answer × D = statement sql user_by_id_sql (number user_id ∷ []) d in
      (first_user (rows_of out.0), out.1)

  -- SessionDAO::findUserByUsername
  unfoldable pub find_user_by_username : Bytes → D → Option User × D
  find_user_by_username name d =
      let out : Answer × D = statement sql user_by_name_sql (text name ∷ []) d in
      (first_user (rows_of out.0), out.1)

  -- SessionDAO::createUser
  unfoldable pub create_user : Bytes → Bytes → D → ℕ × D
  create_user name hash d =
      let out : Answer × D = statement sql create_user_sql (text name ∷ text hash ∷ []) d in
      (insert_id out.0, out.1)

  -- SessionDAO::updatePasswordHash
  unfoldable pub update_password_hash : ℕ → Bytes → D → Bool × D
  update_password_hash user_id hash d =
      let out : Answer × D = statement sql update_hash_sql (text hash ∷ number user_id ∷ []) d in
      (succeeded out.0 && (affected_rows out.0 == 1), out.1)

  -- SessionDAO::findSessionByToken
  unfoldable pub find_session_by_token : Bytes → D → Option DbSession × D
  find_session_by_token token d =
      let out : Answer × D = statement sql session_by_token_sql (text token ∷ []) d in
      (first_session (rows_of out.0), out.1)

  -- SessionDAO::createSession
  unfoldable pub create_session : ℕ → Bytes → Bytes → D → ℕ × D
  create_session user_id token scene d =
      let out : Answer × D =
        statement sql create_session_sql (text token ∷ number user_id ∷ text scene ∷ []) d in
      (insert_id out.0, out.1)

  -- SessionDAO::updateSessionScene
  unfoldable pub update_session_scene : ℕ → Bytes → D → Bool × D
  update_session_scene id scene d =
      let out : Answer × D = statement sql update_scene_sql (text scene ∷ number id ∷ []) d in
      (succeeded out.0, out.1)

  -- SessionDAO::endSession
  unfoldable pub end_session : ℕ → D → Bool × D
  end_session id d =
      let out : Answer × D = statement sql end_session_sql (number id ∷ []) d in
      (succeeded out.0, out.1)

  -- SessionDAO::revokeSession
  unfoldable pub revoke_session : Bytes → D → Bool × D
  revoke_session [] d = (false, d)
  revoke_session (c ∷ token) d =
      let out : Answer × D = bound_statement sql revoke_sql (text (c ∷ token) ∷ []) d in
      (succeeded out.0, out.1)

  -- SessionDAO::findActiveSessionsByUser
  unfoldable pub find_active_sessions_by_user : ℕ → D → List DbSession × D
  find_active_sessions_by_user user_id d =
      let out : Answer × D = statement sql active_by_user_sql (number user_id ∷ []) d in
      (sessions_of (rows_of out.0), out.1)
