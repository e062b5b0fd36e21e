-- ===== src/Database/SessionDao/Table.antt =====
-- The table `sessions` behind src/db/SessionDAO.cpp, after sql/jingjie_ar_schema.sql: rows with a
-- unique token, and what the statements of the DAO do to them.
use jingjie_ar.Prelude.{
  ℕ, ◌≡◌, ◌⊎◌, Bool, true, false, ◌&&◌, Option, none, some, List, [], ◌∷◌, map, if◌then◌else◌, ◌==◌,
  nat_eq, list_eq,
}
use jingjie_ar.Database.SessionDao.{
  session_by_token_sql, create_session_sql, update_scene_sql, end_session_sql, revoke_sql,
  active_by_user_sql, first_session,
}
use jingjie_ar.Database.{MySql, number, text, rows_of, succeeded, Answer}
use jingjie_ar.Caches.SessionCache.{DbSession}
use jingjie_ar.Text.{Bytes}
use jingjie_ar.Int.{ℤ, pos, negsuc}

-- A row, without the times that the server keeps.
pub record SessionRow : Type 0 where
  pub id : ℕ
  pub token : Bytes
  pub user_id : ℕ
  pub scene_id : Bytes
  pub status : ℤ

abbrev pub row_of : DbSession → SessionRow
row_of s = record {
  id = s.id;
  token = s.session_token;
  user_id = s.user_id;
  scene_id = s.scene_id;
  status = s.status;
}

-- The row of a token, and that of an id.
abbrev pub find_row : Bytes → List SessionRow → Option SessionRow
find_row t [] = none
find_row t (r ∷ rs) = let rest = find_row t rs in if r.token == t then some r else rest

-- Whether a session is active, as the statements and ArtworkInteractionService test it.
abbrev pub active : ℤ → Bool
active (pos n) = n == 1
active (negsuc n) = false

-- A row after each of the three statements that change rows.
abbrev pub entered : ℕ → Bytes → SessionRow → SessionRow
entered id scene r =
    if r.id == id
    then (record {
      id = r.id;
      token = r.token;
      user_id = r.user_id;
      scene_id = scene;
      status = pos 1;
    })
    else r

abbrev pub ended : SessionRow → SessionRow
ended r = record { id = r.id; token = r.token; user_id = r.user_id; scene_id = []; status = pos 0 }

abbrev pub ended_id : ℕ → SessionRow → SessionRow
ended_id id r = if r.id == id then ended r else r

abbrev pub revoked : Bytes → SessionRow → SessionRow
revoked t r = if r.token == t && active r.status then ended r else r

abbrev pub new_row : ℕ → ℕ → Bytes → Bytes → SessionRow
new_row id user token scene = record {
  id = id;
  token = token;
  user_id = user;
  scene_id = scene;
  status = pos 1;
}

-- A statement that changes rows was executed, or was not; it was if the client is told so.
abbrev pub Changes : Answer → List SessionRow → List SessionRow → List SessionRow → Type 0
Changes answer before goal after =
    ((after ≡ before) ⊎ (after ≡ goal)) × (succeeded answer ≡ true → after ≡ goal)

-- The documented effect of the statements on the rows of the table.
pub record IsSessionTable {D : Type 0} (sql : MySql D) (rows : D → List SessionRow) : Type 0 where
  pub found :
      (t : Bytes) (d : D) (s : DbSession)
      → first_session (rows_of (sql.execute session_by_token_sql (text t ∷ []) d).0) ≡ some s
      → find_row t (rows d) ≡ some (row_of s)
  pub find_keeps :
      (t : Bytes) (d : D) → rows (sql.execute session_by_token_sql (text t ∷ []) d).1 ≡ rows d
  pub list_keeps :
      (user : ℕ) (d : D) → rows (sql.execute active_by_user_sql (number user ∷ []) d).1 ≡ rows d
  pub enters :
      (id : ℕ) (scene : Bytes) (d : D)
      → Changes
          (sql.execute update_scene_sql (text scene ∷ number id ∷ []) d).0
          (rows d)
          (map (entered id scene) (rows d))
          (rows (sql.execute update_scene_sql (text scene ∷ number id ∷ []) d).1)
  pub ends :
      (id : ℕ) (d : D)
      → Changes
          (sql.execute end_session_sql (number id ∷ []) d).0
          (rows d)
          (map (ended_id id) (rows d))
          (rows (sql.execute end_session_sql (number id ∷ []) d).1)
  pub revokes :
      (t : Bytes) (d : D)
      → Changes
          (sql.execute revoke_sql (text t ∷ []) d).0
          (rows d)
          (map (revoked t) (rows d))
          (rows (sql.execute revoke_sql (text t ∷ []) d).1)
  -- A row with a token that is in use is refused by the unique key.
  pub creates :
      (user : ℕ) (t scene : Bytes) (d : D)
      → (rows (sql.execute create_session_sql (text t ∷ number user ∷ text scene ∷ []) d).1
          ≡ rows d)
        ⊎ ((find_row t (rows d) ≡ none)
            × ((id : ℕ) × (rows
                    (sql.execute create_session_sql (text t ∷ number user ∷ text scene ∷ []) d).1
                  ≡ new_row id user t scene ∷ rows d)))
