-- ===== src/Database/SessionDao/Sample.antt =====
-- A server that holds the table `sessions` in a list, on which the theorems about the DAO of
-- src/db/SessionDAO.cpp apply.
use jingjie_ar.Prelude.{
  ℕ, ◌+◌, ◌≡◌, refl, ap, ◌⊎◌, inl, inr, true, ◌&&◌, Option, none, some, List, [], ◌∷◌, map, arith,
  if◌then◌else◌, some_inj, ◌==◌, nat_eq, list_eq, length,
}
use jingjie_ar.Database.SessionDao.Table.{
  SessionRow, find_row, row_of, entered, ended_id, revoked, new_row, active, IsSessionTable,
}
use jingjie_ar.Database.SessionDao.{
  session_by_token_sql, create_session_sql, update_scene_sql, end_session_sql, revoke_sql,
  active_by_user_sql, first_session, session_of,
}
use jingjie_ar.Database.{MySql, Value, number, signed, text, Answer, failed, done}
use jingjie_ar.Caches.SessionCache.{DbSession}
use jingjie_ar.Text.{Bytes}

abbrev Rows : Type 0
Rows = List SessionRow

abbrev columns : SessionRow → List Value
columns r =
    number r.id
    ∷ text r.token
    ∷ number r.user_id
    ∷ text r.scene_id
    ∷ signed r.status
    ∷ text []
    ∷ text []
    ∷ []

abbrev row_list : Option SessionRow → List (List Value)
row_list none = []
row_list (some r) = columns r ∷ []

abbrev insert_row : ℕ → Bytes → Bytes → Rows → Option SessionRow → Answer × Rows
insert_row user t scene rows (some r) = (failed 1062, rows)
insert_row user t scene rows none =
    (done 1 (length rows + 1) [] true, new_row (length rows + 1) user t scene ∷ rows)

abbrev run_find : List Value → Rows → Answer × Rows
run_find (text t ∷ []) rows = (done 0 0 (row_list (find_row t rows)) true, rows)
run_find ps rows = (failed 1, rows)

abbrev run_create : List Value → Rows → Answer × Rows
run_create (text t ∷ number user ∷ text scene ∷ []) rows =
    insert_row user t scene rows (find_row t rows)
run_create ps rows = (failed 1, rows)

abbrev run_enter : List Value → Rows → Answer × Rows
run_enter (text scene ∷ number id ∷ []) rows = (done 1 0 [] true, map (entered id scene) rows)
run_enter ps rows = (failed 1, rows)

abbrev run_end : List Value → Rows → Answer × Rows
run_end (number id ∷ []) rows = (done 1 0 [] true, map (ended_id id) rows)
run_end ps rows = (failed 1, rows)

abbrev run_revoke : List Value → Rows → Answer × Rows
run_revoke (text t ∷ []) rows = (done 1 0 [] true, map (revoked t) rows)
run_revoke ps rows = (failed 1, rows)

abbrev active_rows : ℕ → Rows → List (List Value)
active_rows user [] = []
active_rows user (r ∷ rs) =
    let rest = active_rows user rs in
    if r.user_id == user && active r.status then columns r ∷ rest else rest

abbrev run_list : List Value → Rows → Answer × Rows
run_list (number user ∷ []) rows = (done 0 0 (active_rows user rows) true, rows)
run_list ps rows = (failed 1, rows)

abbrev pub table_sql : MySql (List SessionRow)
table_sql = record {
  prepares = λ words d. true;
  binds = λ words ps d. true;
  execute = λ words ps d.
      if words == session_by_token_sql
      then run_find ps d
      else if words == create_session_sql
      then run_create ps d
      else if words == update_scene_sql
      then run_enter ps d
      else if words == end_session_sql
      then run_end ps d
      else if words == revoke_sql
      then run_revoke ps d
      else if words == active_by_user_sql
      then run_list ps d
      else (failed 1, d);
}

found_of :
    (o : Option SessionRow) (s : DbSession)
    → first_session (row_list o) ≡ some s
    → o ≡ some (row_of s)
unfolding session_of
found_of none s h = ground (arith, h)
found_of (some r) s h = ap (λ x. some (row_of x)) (some_inj h)

created_of :
    (user : ℕ) (t scene : Bytes) (rows : Rows) (o : Option SessionRow)
    → ((insert_row user t scene rows o).1 ≡ rows)
      ⊎ ((o ≡ none)
          × ((id : ℕ) × ((insert_row user t scene rows o).1 ≡ new_row id user t scene ∷ rows)))
created_of user t scene rows (some r) = inl refl
created_of user t scene rows none = inr (refl, (length rows + 1, refl))

pub table_sql-IsSessionTable : IsSessionTable table_sql (λ d. d)
table_sql-IsSessionTable = record {
  found = λ t d s. found_of (find_row t d) s;
  find_keeps = λ t d. refl;
  list_keeps = λ user d. refl;
  enters = λ id scene d. (inr refl, λ h. refl);
  ends = λ id d. (inr refl, λ h. refl);
  revokes = λ t d. (inr refl, λ h. refl);
  creates = λ user t scene d. created_of user t scene d (find_row t d);
}
